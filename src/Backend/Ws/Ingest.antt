-- ===== src/Backend/Ws/Ingest.antt =====
-- `ingest_status`: which records of a request are pushed, and which are reported as errors.
use rfmesh_workspace.Base.{
  ℕ, suc, ◌+◌, ◌≡◌, ◌≢◌, refl, List, [], ◌∷◌, some, not, ◌&&◌, ◌==◌, Bool-cases, All, inl, inr,
  length, get_elem?, arith,
}
use rfmesh_workspace.Base.Results.{Try, ok, err}
use rfmesh_workspace.Backend.Ws.Frames.{note_record, ingest_loop, ingest_status}

note_record-length :
    {Status Text : Type 0} (i n : ℕ) (result : Try Text Status)
    (lists : List Status × List (ℕ × Text))
    → length lists.0 + length lists.1 ≡ n
    → length (note_record i result lists).0 + length (note_record i result lists).1 ≡ suc n
note_record-length i n (ok status) lists h = omega (arith, h)
note_record-length i n (err text) lists h = omega (arith, h)

module _ {Item Status Text : Type 0} (validate : Item → Try Text Status) where
  ingest_loop-length :
      (i : ℕ) (items : List Item)
      → length (ingest_loop validate i items).0 + length (ingest_loop validate i items).1
        ≡ length items
  unfolding ingest_loop
  ingest_loop-length i [] = refl
  ingest_loop-length i (item ∷ items) =
      note_record-length i (length items) (validate item) (ingest_loop validate (i + 1) items)
        (ingest_loop-length (i + 1) items)

  -- An error names the place of a record that the model refuses, with the model's text.
  unfoldable pub IsBlamed : List Item → ℕ → ℕ × Text → Type 0
  IsBlamed items from (place, text) =
      (item : Item) × (k : ℕ) × (place ≡ k + from)
      × (get_elem? items k ≡ some item)
      × (validate item ≡ err text)

  IsBlamed-cons :
      (item : Item) (items : List Item) (from : ℕ) (e : ℕ × Text)
      → IsBlamed items (from + 1) e
      → IsBlamed (item ∷ items) from e
  unfolding IsBlamed
  IsBlamed-cons item items from e (bad, k, at_place, found, refused) =
      (bad, suc k, omega (arith, at_place), found, refused)

  IsBlamed-All :
      (item : Item) (items : List Item) (from : ℕ) (es : List (ℕ × Text))
      → All (IsBlamed items (from + 1)) es
      → All (IsBlamed (item ∷ items) from) es
  IsBlamed-All item items from [] h = tt
  IsBlamed-All item items from (e ∷ es) h =
      (IsBlamed-cons item items from e h.0, IsBlamed-All item items from es h.1)

  note_record-IsBlamed :
      (item : Item) (items : List Item) (from : ℕ) (result : Try Text Status)
      (lists : List Status × List (ℕ × Text))
      → validate item ≡ result
      → All (IsBlamed (item ∷ items) from) lists.1
      → All (IsBlamed (item ∷ items) from) (note_record from result lists).1
  unfolding IsBlamed
  note_record-IsBlamed item items from (ok status) lists e h = h
  note_record-IsBlamed item items from (err text) lists e h = ((item, 0, omega arith, refl, e), h)

  ingest_loop-IsBlamed :
      (i : ℕ) (items : List Item) → All (IsBlamed items i) (ingest_loop validate i items).1
  unfolding ingest_loop
  ingest_loop-IsBlamed i [] = tt
  ingest_loop-IsBlamed i (item ∷ items) =
      note_record-IsBlamed item items i (validate item) (ingest_loop validate (i + 1) items) refl
        (IsBlamed-All item items i _ (ingest_loop-IsBlamed (i + 1) items))

  unfoldable pub IsAccount :
      List Item → List Status × Try (List (ℕ × Text)) (ℕ × List (ℕ × Text)) → Type 0
  IsAccount items (pushed, err errors) =
      (length pushed ≡ 0)
      × (length errors ≡ length items)
      × (length items ≢ 0)
      × All (IsBlamed items 0) errors
  IsAccount items (pushed, ok (accepted, errors)) =
      (length pushed ≡ accepted)
      × (accepted + length errors ≡ length items)
      × (accepted ≡ 0 → length items ≡ 0)
      × All (IsBlamed items 0) errors

  -- Every record that comes in is pushed as a status or reported as an error at its place in the
  -- list, and the request is refused exactly if there are records and none was accepted.
  pub ingest_status-IsAccount : (items : List Item) → IsAccount items (ingest_status validate items)
  unfolding ingest_status IsAccount
  ingest_status-IsAccount items =
      let done = ingest_loop validate 0 items in
      let count = ingest_loop-length 0 items in
      let blamed = ingest_loop-IsBlamed 0 items in
      elim (Bool-cases (length done.0 == 0 && not (length done.1 == 0))) [
        | inl refused ↦
            rw refused (ground (arith, count), ground (arith, count), ground (arith, count), blamed)
        | inr taken ↦ rw taken (refl, count, (λ z. ground (arith, count)), blamed)
      ]
