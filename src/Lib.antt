-- ===== src/Lib.antt =====
-- A verification library for provider-stackrox, a Crossplane provider that manages two kinds of
-- resources of StackRox Central: secured clusters (Cluster) and init bundles (InitBundle).
--
-- The program. A reconciler of crossplane-runtime calls, for each resource, a connector, which makes
-- a gRPC connection to Central from a ProviderConfig, and then an external client, which observes,
-- creates, updates or deletes what the resource stands for in Central. The two controllers are
-- pkg/controller/cluster/cluster.go and pkg/controller/initbundle/initbundle.go; both dial through
-- pkg/clients/central/central.go, and their resources are the types under apis/.
--
-- Which file models which code:
--   Api             the types under apis/. Api/Parameters has the parameters of both kinds, and what
--                   cmp.Diff says of them; Api/Managed the interface resource.Managed as a sum of
--                   the two kinds and of all others, so that a type assertion is a case split
--   Cluster         Observe, Create, Update, Delete and getCluster of cluster.go; Cluster/Convert
--                   has generateObservation, generateCluster and isUpToDate
--   InitBundle      the same of initbundle.go, with InitBundle/Convert
--   Central         NewGRPC and createGRPCConn
--   Connector       Connect, Disconnect and close of both controllers
--   Setup           the set-up of the three controllers: pkg/controller/stackrox.go,
--                   pkg/controller/config/config.go and Setup of the other two. The calls that
--                   configure a controller are a record of their arguments, and Complete is a
--                   parameter
--   Api/Kinds       the groups, versions and kinds, the init functions that register the types, and
--                   AddToScheme. Go runs the init functions of a package by the names of its files
--   CommandLine     the flags of cmd/provider/main.go, as the arguments of the calls that declare
--                   them, and the reads of their values
--   Main            main: the command line, and then steps of which the first that fails ends the
--                   process
--   Deps            the code outside the repository, as one record of operations: errors, the
--                   runtime libraries, the messages of StackRox, the services of Central, the
--                   network, cmp. Deps/Laws has what is relied on of Central, Deps/Manager,
--                   Deps/Scheme and Deps/Kingpin what the set-up and main use of theirs
--   Memory          the structs of apis/ as they lie in memory: cells at addresses (Memory/Heap),
--                   what a type's value is once every address has been followed (Memory/Layout),
--                   maps and slices behind addresses (Memory/Strings, Memory/Cells), and the structs
--                   themselves, in which a map or a slice is an address or nil
--   DeepCopy        the three files zz_generated.deepcopy.go: DeepCopyInto, DeepCopy and
--                   DeepCopyObject of each type, as copy_T, deep_copy_T and deep_copy_object_T
--   Accessors       the getters and setters of zz_generated.managed.go, zz_generated.pc.go,
--                   zz_generated.pcu.go and storeconfig_types.go, and GetItems of the lists
--                   (Accessors/Items, Memory/Items)
--   Base            shared helpers: Go maps (Base/GoMap), and the loop that both controllers search
--                   a list by name with (Base/Named, Base/Others, Base/Counted)
--   Examples        a small Central in memory that meets every law, and the theorems at concrete
--                   inputs
-- The children of Cluster, InitBundle, Connector, Setup, Main, DeepCopy and Accessors that are not
-- named above or below, and Memory/Copier and Memory/Apart, hold theorems.
--
-- How code becomes a definition. A method that changes its resource and calls Central takes the
-- resource and the world, and returns a `Returned`: the value, the error, the resource as it is
-- left and the world. The world is the state of all that is outside the provider's code, the
-- manager's scheme included; each call of a service takes it and returns it. An error is an `Option
-- D.Error`, nil is `none`, and every early return is a branch. `Connect` can panic, by a read
-- through a nil reference, and returns an `Attempt`. A Go map or slice that may be nil is an Option
-- of its entries. An integer of a message is a ℤ; no arithmetic is done on it. Every loop is a
-- structural recursion, and no definition needs fuel.
--
-- What calls the controllers is the reconciler of crossplane-runtime. Its calls are step relations:
-- which call may follow which, as its documentation says, and what others may do meanwhile. Runs has
-- the runs of either controller, of steps that Cluster/Runs and InitBundle/Runs describe;
-- InitBundle/Passes has whole reconciliations, from Connect to Disconnect, which are shown to be such
-- runs; Runs/Removals, Cluster/Deletion and InitBundle/Deletion have the deletions; Connector/Workers
-- has the calls of several workers.
--
-- Of what Central stores, only the name of a cluster, and the identifier of one that is put, are taken
-- to be those of the request (Deps/Laws); that it keeps the other fields is a hypothesis where a
-- theorem needs it, or one side of an equivalence (Cluster/Kept).
--
-- In Memory and DeepCopy the receiver and `out` are an argument and a result: the content of the
-- struct behind the pointer, since `out` is always a new struct or a part of one. A map or a slice has
-- an address. The elements of a new array are written when all of them are copied; nothing reads the
-- array before. The deep copies of the libraries' types are parameters, each with the documented law
-- that it makes a deep copy (Memory/Libraries).
--
-- Not modelled, and why:
--   * contexts, which carry deadlines and cancellation only; a call that is cut off is one that
--     returns an error;
--   * nil elements in the lists of a reply: a decoded message has none;
--   * writes through shared pointers: a resource shares its map of labels with the message that is
--     made from it, and a looked up cluster is changed in place before it is sent, but neither is
--     read again afterwards;
--   * a clock that moves within a call: a condition is stamped with the time of the world;
--   * the order of a Go map: its value is what reads of it give;
--   * the parser of the command line and the loggers, which are parameters (Deps/Kingpin, Main);
--   * the reply of RevokeInitBundle, which Delete discards. That Central may refuse there what it has
--     been asked to revoke is a function of Deps/Laws;
--   * two workers that write to one field at the same moment. Connector/Sessions has two
--     reconciliations that overlap, Connector/Workers the calls of any number of them.
pub mod Base
pub mod Deps
pub mod Api
pub mod Accessors
pub mod Cluster
pub mod InitBundle
pub mod Central
pub mod Connector
pub mod Runs
pub mod Setup
pub mod CommandLine
pub mod Main
pub mod Memory
pub mod DeepCopy
pub mod Examples
