-- ===== src/DeepCopy/AttributesLaws.antt =====
-- apis/initbundle/v1alpha1/zz_generated.deepcopy.go: the two copies of a map of attributes.
use provider_stackrox.Base.{String, Option, none, some, [], ◌≡◌, refl}
use provider_stackrox.Memory.Heap.{Heap, Addr, alloc, cell-alloc}
use provider_stackrox.Memory.Layout.{CopiesDeep}
use provider_stackrox.Memory.Cells.{copy_behind}
use provider_stackrox.Base.GoMap.{find}
use provider_stackrox.Memory.Copier.{
  Copier, pointer, pointer-IsDeep, strings_copier, strings_copier-IsDeep,
}
use provider_stackrox.Memory.Foreign.{MemTypes}
use provider_stackrox.Memory.Cell.{Cell, strings_slot, strings_slot-IsSlot}
use provider_stackrox.Memory.Libraries.{MemLib}
use provider_stackrox.DeepCopy.InitBundle.{copy_attributes, deep_copy_attributes}

module _ {T : MemTypes} (L : MemLib T) where
  abbrev attributes_copier : Copier (Cell T) (Option Addr) (Option (String → Option String))
  attributes_copier = pointer strings_slot [] strings_copier

  by_pointer :
      (m : Option Addr) (h : Heap (Cell T))
      → deep_copy_attributes L m h ≡ attributes_copier.copy_into m h
  unfolding deep_copy_attributes copy_attributes copy_behind
  by_pointer none h = refl
  by_pointer (some a) h = refl

  -- Attributes.DeepCopy makes a deep copy, nil of nil.
  pub deep_copy_attributes-CopiesDeep : CopiesDeep attributes_copier.layout (deep_copy_attributes L)
  deep_copy_attributes-CopiesDeep m h used = rw (by_pointer m h) (
      (pointer-IsDeep strings_slot [] (strings_slot-IsSlot T) strings_copier-IsDeep).copies_deep m h
        used)

  -- Attributes.DeepCopyInto makes an empty map of nil.
  pub copy_attributes-none :
      (h : Heap (Cell T))
      → let (b, h') = copy_attributes L none h in
        attributes_copier.layout.view (some b) h' ≡ some (λ key. none)
  unfolding copy_attributes find alloc
  copy_attributes-none h = rw (cell-alloc _ h) refl
