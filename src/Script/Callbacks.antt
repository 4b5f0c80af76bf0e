-- ===== src/Script/Callbacks.antt =====
-- A callback, from its option to its run.
use mathlib.Core.List.{append-nil}
use trequests.Base.{
  none, ap, true, not, ◌&&◌, ◌++◌, List, [], ◌∷◌, some, Bytes, Bool, ◌≡◌, refl, arith,
  if◌then◌else◌, Option-cases, inl, inr,
}
use trequests.Options.Platform.{Platform, OptionName, ok}
use trequests.Options.Values.{ObjectOption, validate_object_list}
use trequests.Request.Execute.{ReturnCode, is_ok, Interp, execute_command, execute_tcl_callback}

module _ (p : Platform) (eval_objv : List Bytes → Interp → ReturnCode × Interp) where
  -- The callback is run as a command of at least one word, which its elements begin and the arguments
  -- end; it leaves the state of the interpreter as it was, and reports its code, and no other, just if
  -- it is to and the code is not TCL_OK.
  abbrev pub RunsAs : Bytes → List Bytes → Bool → Interp → Interp → Type 0
  RunsAs callback objv background i j =
      (name : Bytes) × (words : List Bytes) × (p.list_elements callback ≡ some (name ∷ words))
      × (j.state ≡ i.state)
      × (j.world ≡ (eval_objv (name ∷ words ++ objv) i).1.world)
      × (j.reported
          ≡ (eval_objv (name ∷ words ++ objv) i).1.reported
            ++ (if background && not (is_ok (eval_objv (name ∷ words ++ objv) i).0)
                then (eval_objv (name ∷ words ++ objv) i).0 ∷ []
                else []))

  -- An option that passes is a list that is not empty.
  passed_elements :
      (name : OptionName) (o : ObjectOption) (callback : Bytes)
      → validate_object_list p name true o ≡ ok (some callback)
      → (x : Bytes) × (xs : List Bytes) × (p.list_elements callback ≡ some (x ∷ xs))
  unfolding validate_object_list
  passed_elements name o callback e = elim (Option-cases o.value) [
    | inl none_given ↦ absurd (ground arith)
    | inr (value, hv) ↦ elim (Option-cases (p.list_elements value)) [
      | inl no_list ↦ absurd (ground arith)
      | inr (words, hw) ↦ at_words value words hv hw
    ]
  ]
    where
      at_words :
          (value : Bytes) (words : List Bytes)
          → o.value ≡ some value
          → p.list_elements value ≡ some words
          → (x : Bytes) × (xs : List Bytes) × (p.list_elements callback ≡ some (x ∷ xs))
      at_words value [] hv hw = absurd (ground arith)
      at_words value (x ∷ xs) hv hw = (x, xs, ground arith)

  execute_command-reported :
      (words : List Bytes) (background : Bool) (i : Interp)
      → ((execute_command p.list_elements eval_objv words background i).world
          ≡ (eval_objv words i).1.world)
        × ((execute_command p.list_elements eval_objv words background i).reported
            ≡ (eval_objv words i).1.reported
              ++ (if background && not (is_ok (eval_objv words i).0)
                  then (eval_objv words i).0 ∷ []
                  else []))
  unfolding execute_command
  execute_command-reported words background i =
      ground (arith, append-nil (eval_objv words i).1.reported)

  execute_tcl_callback-list :
      (callback : Bytes) (objv words : List Bytes) (background : Bool) (i : Interp)
      → p.list_elements callback ≡ some words
      → execute_tcl_callback p.list_elements eval_objv callback objv background i
        ≡ execute_command p.list_elements eval_objv (words ++ objv) background i
  unfolding execute_tcl_callback
  execute_tcl_callback-list callback objv words background i e =
      ap
        (λ o. elim o as (λ _. Interp) [
          | none ↦ execute_command p.list_elements eval_objv objv background i
          | some ws ↦ execute_command p.list_elements eval_objv (ws ++ objv) background i
        ])
        e

  -- A callback that passed the check of its option is run as a command that its
  -- elements begin and the arguments end; it leaves the state of the interpreter as it was, and its
  -- code is reported just if it is to be and is not TCL_OK.
  pub execute_tcl_callback-RunsAs :
      (name : OptionName) (o : ObjectOption) (callback : Bytes) (objv : List Bytes)
      (background : Bool) (i : Interp)
      → validate_object_list p name true o ≡ ok (some callback)
      → RunsAs callback objv background i
          (execute_tcl_callback p.list_elements eval_objv callback objv background i)
  execute_tcl_callback-RunsAs name o callback objv background i passed =
      let (x, xs, e) = passed_elements name o callback passed in
      let (world, reported) = execute_command-reported (x ∷ xs ++ objv) background i in
      rw (execute_tcl_callback-list callback objv (x ∷ xs) background i e)
        (x, xs, e, unfold execute_command in refl, world, reported)
