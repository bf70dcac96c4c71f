-- ===== src/Holmes.antt =====
-- common/grpc-wrapper/grpc_server_wrapper/holms_wrapper/holms.go: the manager of the profiler
-- mosn.io/holmes. `T` are the profilers that holmes.New makes. Durations are in seconds.
pub mod Manager
pub mod Runs
pub mod Last
use panda_go.Prelude.{
  ℕ, Bool, true, false, none, some, Option, List, [], ◌∷◌, ◌++◌, if◌then◌else◌, ◌==◌, nat_eq,
  list_eq,
}
use panda_go.Go.Text.{GoString, lit}
use panda_go.Go.Int.{ℤ, pos, negsuc}
use panda_go.Go.Outcome.{Outcome, returns, panics, ◌>>=◌}

pub record ItemConfig : Type 0 where
  pub kind : GoString
  pub min : ℤ
  pub diff : ℤ
  pub abs : ℤ
  pub max : ℤ
  pub cool_down : ℤ

-- A pointer among the items may be nil.
pub record HolmesConfig : Type 0 where
  pub enable : Bool
  pub items : List (Option ItemConfig)
  pub trigger_name : GoString

-- The cases of the two `switch` statements of createTriggerHolmes
pub data Dump : Type 0 where
  cpu : Dump
  goroutine : Dump
  allocs : Dump
  thread : Dump
  heap : Dump

unfoldable pub dump_of : GoString → Option Dump
dump_of kind =
    if kind == lit "cpu"
    then some cpu
    else if kind == lit "goroutine"
    then some goroutine
    else if kind == lit "allocs"
    then some allocs
    else if kind == lit "thread"
    then some thread
    else if kind == lit "heap"
    then some heap
    else none

-- The options that the code gives to holmes.New
pub data HolmesOption : Type 0 where
  with_profile_reporter : GoString → GoString → HolmesOption
  with_dump_path : GoString → HolmesOption
  with_logger : HolmesOption
  with_cpu_dump : ℤ → ℤ → ℤ → ℤ → HolmesOption
  with_cpu_max : ℤ → HolmesOption
  with_goroutine_dump : ℤ → ℤ → ℤ → ℤ → ℤ → HolmesOption
  with_mem_dump : ℤ → ℤ → ℤ → ℤ → HolmesOption
  with_thread_dump : ℤ → ℤ → ℤ → ℤ → HolmesOption
  with_gc_heap_dump : ℤ → ℤ → ℤ → ℤ → HolmesOption

abbrev pub dump_options : Option Dump → ItemConfig → List HolmesOption
dump_options none i = []
dump_options (some cpu) i = with_cpu_dump i.min i.diff i.abs i.cool_down ∷ with_cpu_max i.max ∷ []
dump_options (some goroutine) i = with_goroutine_dump i.min i.diff i.abs i.max i.cool_down ∷ []
dump_options (some allocs) i = with_mem_dump i.min i.diff i.abs i.cool_down ∷ []
dump_options (some thread) i = with_thread_dump i.min i.diff i.abs i.cool_down ∷ []
dump_options (some heap) i = with_gc_heap_dump i.min i.diff i.abs i.cool_down ∷ []

-- The first loop of createTriggerHolmes
unfoldable pub options_of : List (Option ItemConfig) → Outcome (List HolmesOption)
options_of [] = returns []
options_of (none ∷ items) = panics
options_of (some i ∷ items) =
    options_of items >>= (λ os. returns (dump_options (dump_of i.kind) i ++ os))

abbrev pub dump_list : Option Dump → List Dump
dump_list none = []
dump_list (some d) = d ∷ []

-- The second loop: the Enable methods that are called, in order
unfoldable pub dumps_of : List (Option ItemConfig) → Outcome (List Dump)
dumps_of [] = returns []
dumps_of (none ∷ items) = panics
dumps_of (some i ∷ items) = dumps_of items >>= (λ ds. returns (dump_list (dump_of i.kind) ++ ds))

-- newHolmes: what is put before the options
abbrev pub base_options : GoString → GoString → List HolmesOption
base_options app alert_name =
    with_profile_reporter app alert_name ∷ with_dump_path (lit "/tmp/profile") ∷ with_logger ∷ []
