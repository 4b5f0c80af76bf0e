-- ===== src/Request/Execute.antt =====
-- src/common.c, `treq_ExecuteTclCallback`: how a callback is run.
use trequests.Base.{
  Bool, false, true, not, ◌&&◌, List, [], ◌∷◌, ◌++◌, Option, none, some, Bytes, if◌then◌else◌,
}

-- The code of a script that has run.
pub data ReturnCode : Type 0 where
  tcl_ok tcl_error other_code : ReturnCode

abbrev pub is_ok : ReturnCode → Bool
is_ok tcl_ok = true
is_ok _ = false

-- What a script may read and change: the state of the interpreter, which `Tcl_SaveInterpState` saves
-- (its result and its errors), all else in it, and the codes that were reported in the background.
pub record Interp : Type 0 where
  pub state : Bytes
  pub world : Bytes
  pub reported : List ReturnCode

-- `Tcl_BackgroundException`
abbrev background_exception : ReturnCode → Interp → Interp
background_exception rc i = record i { reported = i.reported ++ rc ∷ [] }

-- `Tcl_ListObjGetElements` and `Tcl_EvalObjv` are parameters.
module _ (list_elements : Bytes → Option (List Bytes))
    (eval_objv : List Bytes → Interp → ReturnCode × Interp) where
  -- From the elements of the command on: the state is saved before and restored at the end.
  unfoldable pub execute_command : List Bytes → Bool → Interp → Interp
  execute_command words background i =
      let (rc, after) = eval_objv words i in
      let shown = if background && not (is_ok rc) then background_exception rc after else after in
      record shown { state = i.state }

  -- `treq_ExecuteTclCallback`. With a callback that is not a list, `Tcl_ListObjGetElements` leaves the
  -- words as they were passed, so that the arguments alone are run.
  unfoldable pub execute_tcl_callback : Bytes → List Bytes → Bool → Interp → Interp
  unfolding execute_command
  execute_tcl_callback callback objv background i = elim (list_elements callback) [
    | none ↦ execute_command objv background i
    | some words ↦ execute_command (words ++ objv) background i
  ]
