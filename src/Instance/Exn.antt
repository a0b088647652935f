-- ===== src/Instance/Exn.antt =====
-- Exceptions, and the classes by which the code tells them apart: temporalio/exceptions.py and the
-- tests on exceptions in temporalio/worker/_workflow_instance.py.
use sdk_python.Prelude.{String, Bool, false, ◌&&◌, ◌||◌, List, [], ◌∷◌, contains, string_eq}

-- An exception has the names of its class and of that class's bases, and those of its cause, none
-- if it has none. Other than these only the message is ever read.
pub record Exn : Type 0 where
  pub classes : List String
  pub cause_classes : List String
  pub message : String

unfoldable pub isinstance : Exn → String → Bool
isinstance e cls = contains e.classes cls

-- `any(isinstance(err, typ) for typ in types)`
unfoldable pub is_any_of : Exn → List String → Bool
unfolding isinstance
is_any_of e [] = false
is_any_of e (cls ∷ types) = isinstance e cls || is_any_of e types

-- Two classes share the name `CancelledError`: asyncio's has the prefix here.
unfoldable pub is_cancelled_exception : Exn → Bool
unfolding isinstance
is_cancelled_exception e =
    isinstance e "asyncio.CancelledError"
    || isinstance e "CancelledError"
    || ((isinstance e "ActivityError"
          || isinstance e "ChildWorkflowError"
          || isinstance e "NexusOperationError")
        && contains e.cause_classes "CancelledError")

error : List String → String → Exn
error classes message = record { classes = classes; cause_classes = []; message = message }

unfoldable pub runtime_error : String → Exn
unfolding error
runtime_error = error ("RuntimeError" ∷ "Exception" ∷ "BaseException" ∷ [])

unfoldable pub value_error : String → Exn
unfolding error
value_error = error ("ValueError" ∷ "Exception" ∷ "BaseException" ∷ [])

unfoldable pub type_error : String → Exn
unfolding error
type_error = error ("TypeError" ∷ "Exception" ∷ "BaseException" ∷ [])

unfoldable pub assertion_error : String → Exn
unfolding error
assertion_error = error ("AssertionError" ∷ "Exception" ∷ "BaseException" ∷ [])

unfoldable pub invalid_state_error : Exn
unfolding error
invalid_state_error =
    error ("InvalidStateError" ∷ "Error" ∷ "Exception" ∷ "BaseException" ∷ []) "invalid state"

unfoldable pub read_only_context_error : String → Exn
unfolding error
read_only_context_error =
    error ("ReadOnlyContextError" ∷ "TemporalError" ∷ "Exception" ∷ "BaseException" ∷ [])

unfoldable pub being_evicted_error : String → Exn
unfolding error
being_evicted_error = error ("_WorkflowBeingEvictedError" ∷ "BaseException" ∷ [])

unfoldable pub cancelled_error : String → Exn
unfolding error
cancelled_error =
    error ("CancelledError" ∷ "FailureError" ∷ "TemporalError" ∷ "Exception" ∷ "BaseException" ∷ [])
