-- ===== src/DeepCopy.antt =====
-- The deep copies under apis/ that controller-gen has written. The structs behind `in` and `out` are
-- an argument and a result: a function returns what is behind `out` when it is done, and every
-- function begins with `*out = *in`. A map or a slice has an address, and a copy of it a new one.
pub mod Cluster
pub mod InitBundle
pub mod Config
pub mod Object
pub mod Values
pub mod ClusterLaws
pub mod InitBundleLaws
pub mod ProviderConfigLaws
pub mod StoreConfigLaws
pub mod AttributesLaws
pub mod Kinds
pub mod Apart
use provider_stackrox.Base.{Option, none, some}
use provider_stackrox.Memory.Heap.{Heap}

-- DeepCopy: nil, or the content of a new struct.
unfoldable pub copy_pointer :
    {C X : Type 0} → (X → Heap C → X × Heap C) → Option X → Heap C → Option X × Heap C
copy_pointer copy_into none h = (none, h)
copy_pointer copy_into (some x) h = let (x', h') = copy_into x h in (some x', h')

-- DeepCopyObject: the nil interface, or an object of the type.
unfoldable pub as_object : {C X O : Type 0} → (X → O) → Option X × Heap C → Option O × Heap C
as_object object (none, h) = (none, h)
as_object object (some x, h) = (some (object x), h)
