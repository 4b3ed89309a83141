-- ===== src/Backend/Ws/Outcomes.antt =====
-- What `post_command` answers and does to the registries, on each of its branches.
use rfmesh_workspace.Base.{
  ℕ, ◌≡◌, ◌≢◌, refl, sym, ap, ◌∙◌, Option, none, some, Bool, true, false, ◌==◌, ==_refl, Bool-cases,
  inl, inr, if◌then◌else◌, arith,
}
use rfmesh_workspace.Base.Results.{Try, ok, err}
use rfmesh_workspace.Base.Dict.{number_key}
use rfmesh_workspace.Backend.Ws.{
  Registries, Refusal, invalid, not_registered, send_failed, no_snapshot, Send, is_own, unregister,
  get, after_command, command_to,
}
use rfmesh_workspace.Backend.Ws.Lifetimes.{get-unregister}
use rfmesh_workspace.Backend.Ws.Frames.{
  Kind, manual_steer, Request, kind_or, validate_command, post_valid, with_command, post_command,
}

own_entry : (o : Option ℕ) (ws : ℕ) → (if is_own o ws then none else o) ≡ some ws → ⊥
own_entry none ws e = absurd (cc)
own_entry (some current) ws e = elim (Bool-cases (current == ws)) [
  | inl same ↦ let gone : none ≡ some ws = (rw same refl) ∙ e in absurd (cc)
  | inr other ↦ ground arith
]

not_own : {Hello : Type 0} (n ws : ℕ) (s : Registries Hello) → get n (unregister n ws s) ≢ some ws
not_own n ws s h = own_entry (get n s) ws (sym (get-unregister n n ws s ∙ rw (==_refl n) refl) ∙ h)

module _ {Hello Body Command : Type 0} (validate : Kind → Body → Option Command)
    (send : Command → Send Hello) (node_id : ℕ) (request : Request Body)
    (r : Registries Hello) where
  unfoldable pub validated : Option Command
  validated = validate_command validate (kind_or manual_steer request) request.body

  -- A delivery was sent on the node's socket; a refusal with 422 or for a missing node leaves the
  -- registries alone; after a send that raised, the node is not left with the socket it raised on.
  unfoldable pub IsOutcome : Try Refusal (Command × ℕ) → Registries Hello → Type 0
  IsOutcome (ok (command, ws)) after =
      (validated ≡ some command) × (get node_id r ≡ some ws) × (send command ws r ≡ (false, after))
  IsOutcome (err invalid) after = (validated ≡ none) × (after ≡ r)
  IsOutcome (err not_registered) after = (validated ≢ none) × (get node_id r ≡ none) × (after ≡ r)
  IsOutcome (err send_failed) after =
      (command : Command) × (ws : ℕ) × (validated ≡ some command)
      × (get node_id r ≡ some ws)
      × ((send command ws r).0 ≡ true)
      × (get node_id after ≢ some ws)
  IsOutcome (err no_snapshot) after = ⊥

  after_command-IsOutcome :
      (command : Command) (ws : ℕ)
      → validated ≡ some command
      → get node_id r ≡ some ws
      → (sent : Bool × Registries Hello) → send command ws r ≡ sent
      → IsOutcome
          (with_command command (after_command node_id ws sent).0)
          (after_command node_id ws sent).1
  unfolding after_command IsOutcome
  after_command-IsOutcome command ws valid here (true, after) e =
      (command, ws, valid, here, ap (λ s. s.0) e, not_own node_id ws after)
  after_command-IsOutcome command ws valid here (false, after) e = (valid, here, e)

  command_to-IsOutcome :
      (command : Command)
      → validated ≡ some command
      → (entry : Option ℕ) → get node_id r ≡ entry
      → IsOutcome
          (with_command command (command_to (send command) node_id entry r).0)
          (command_to (send command) node_id entry r).1
  unfolding command_to IsOutcome
  command_to-IsOutcome command valid none here = (
    (λ invalid_body. let clash : some command ≡ none = sym valid ∙ invalid_body in absurd (cc)),
    here,
    refl,
  )
  command_to-IsOutcome command valid (some ws) here =
      after_command-IsOutcome command ws valid here (send command ws r) refl

  post_valid-IsOutcome :
      (command : Option Command)
      → validated ≡ command
      → IsOutcome (post_valid send node_id command r).0 (post_valid send node_id command r).1
  unfolding post_valid IsOutcome
  post_valid-IsOutcome none invalid_body = (invalid_body, refl)
  post_valid-IsOutcome (some command) valid =
      command_to-IsOutcome command valid (get node_id r) refl

  -- A command that `post_command` reports as delivered passed its validation and went out on the
  -- socket registered for the node; a request that fails the validation, or for a node with no
  -- socket, changes nothing; and after a send that raised the node is no longer registered with the
  -- socket it raised on. There is no other outcome.
  pub post_command-IsOutcome :
      IsOutcome
        (post_command validate send node_id request r).0
        (post_command validate send node_id request r).1
  unfolding post_command validated
  post_command-IsOutcome =
      post_valid-IsOutcome (validate_command validate (kind_or manual_steer request) request.body)
        refl
