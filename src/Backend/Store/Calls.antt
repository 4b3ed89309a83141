-- ===== src/Backend/Store/Calls.antt =====
-- The store as its callers see it: a sequence of calls with their answers, beside an abstract store
-- of plain functions that has no dict, no order and no side table.
use rfmesh_workspace.Base.{
  ℕ, ◌≡◌, List, [], ◌∷◌, Option, none, some, Bool, true, false, ◌||◌, if◌then◌else◌,
}
use rfmesh_workspace.Base.Dict.{Key, number_key, pair_key, lookup}
use rfmesh_workspace.Backend.Store.{
  FixEvent, BearingReport, Red, Store, bearing_key, upsert_fix, freq_for, get_fix, is_seeded,
  upsert_bearing, add_red, delete_red, clear_reds,
}

module _ (A : Type 0) where
  pub data Call : Type 0 where
    fix_in : FixEvent A → Bool → Option A → Call
    bearing_in : BearingReport A → Call
    red_in : ℕ → Red A → Call
    red_out : ℕ → Call
    reds_out : Call
    fix_of freq_of seeded_of : ℕ → Call

  pub data Answer : Type 0 where
    nothing : Answer
    red_id : ℕ → Answer
    was_there : Bool → Answer
    found_fix : Option (FixEvent A) → Answer
    found_freq : Option A → Answer

  pub record View : Type 0 where
    pub fixes : ℕ → Option (FixEvent A)
    pub freqs : ℕ → Option A
    pub seeded : ℕ → Bool
    pub bearings : ℕ × ℕ → Option (BearingReport A)
    pub reds : ℕ → Option (Red A)

-- A function with one value replaced.
abbrev pub update : {K V : Type 0} ⦃key : Key K⦄ → K → V → (K → V) → K → V
update ⦃key⦄ k v f = λ j. if key.same k j then v else f j

abbrev pub is_some : {V : Type 0} → Option V → Bool
is_some none = false
is_some (some v) = true

module _ {A : Type 0} where
  unfoldable pub call : Call A → Store A → Answer A × Store A
  call (fix_in f seeded center) s = (nothing, upsert_fix f seeded center s)
  call (bearing_in b) s = (nothing, upsert_bearing b s)
  call (red_in generated red) s = let added = add_red generated red s in (red_id added.0, added.1)
  call (red_out id) s = let deleted = delete_red id s in (was_there deleted.0, deleted.1)
  call reds_out s = (nothing, clear_reds s)
  call (fix_of id) s = (found_fix (get_fix id s), s)
  call (freq_of id) s = (found_freq (freq_for id s), s)
  call (seeded_of id) s = (was_there (is_seeded id s), s)

  unfoldable pub call_all : List (Call A) → Store A → List (Answer A) × Store A
  call_all [] s = ([], s)
  call_all (c ∷ cs) s =
      let first = call c s in let later = call_all cs first.1 in (first.0 ∷ later.0, later.1)

  abbrev pub empty_view : View A
  empty_view = record {
    fixes = λ id. none;
    freqs = λ id. none;
    seeded = λ id. false;
    bearings = λ k. none;
    reds = λ id. none;
  }

  -- The calls on the abstract store. A fix that was once seeded stays seeded.
  abbrev pub abstract_call : Call A → View A → Answer A × View A
  abstract_call (fix_in f seeded center) v = (
    nothing,
    record v {
      fixes = update f.fix_id (some f) v.fixes;
      freqs = update f.fix_id center v.freqs;
      seeded = update f.fix_id (seeded || v.seeded f.fix_id) v.seeded;
    },
  )
  abstract_call (bearing_in b) v =
      (nothing, record v { bearings = update (bearing_key b) (some b) v.bearings })
  abstract_call (red_in generated red) v =
      let id : ℕ = elim red.id [ none ↦ generated | some supplied ↦ supplied ] in
      (red_id id, record v { reds = update id (some (record red { id = some id })) v.reds })
  abstract_call (red_out id) v =
      (was_there (is_some (v.reds id)), record v { reds = update id none v.reds })
  abstract_call reds_out v = (nothing, record v { reds = λ id. none })
  abstract_call (fix_of id) v = (found_fix (v.fixes id), v)
  abstract_call (freq_of id) v = (found_freq (v.freqs id), v)
  abstract_call (seeded_of id) v = (was_there (v.seeded id), v)

  abbrev pub abstract_all : List (Call A) → View A → List (Answer A) × View A
  abstract_all [] v = ([], v)
  abstract_all (c ∷ cs) v =
      let first = abstract_call c v in
      let later = abstract_all cs first.1 in (first.0 ∷ later.0, later.1)

  pub record Represents (s : Store A) (v : View A) : Type 0 where
    pub fixes : (id : ℕ) → lookup id s.fixes ≡ v.fixes id
    pub freqs : (id : ℕ) → freq_for id s ≡ v.freqs id
    pub seeded : (id : ℕ) → is_seeded id s ≡ v.seeded id
    pub bearings : (k : ℕ × ℕ) → lookup k s.bearings ≡ v.bearings k
    pub reds : (id : ℕ) → lookup id s.reds ≡ v.reds id
