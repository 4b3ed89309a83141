-- ===== src/Backend/Ws/Broadcast.antt =====
-- The broadcast of ALL_STOP to all nodes and the push to all user interfaces, when each send either
-- raises or goes through and no other handler changes the registries meanwhile.
use mathlib.Core.Path.{subst}
use rfmesh_workspace.Base.{
  ℕ, ◌≡◌, refl, sym, ap, ◌∙◌, List, [], ◌∷◌, ◌++◌, append_assoc, Bool, true, false, not, ◌&&◌, ◌==◌,
  ==→eq, ==_refl, Bool-cases, inl, inr, if◌then◌else◌, arith,
}
use rfmesh_workspace.Base.Dict.{number_key, Dict, keys, IsDistinct}
use rfmesh_workspace.Base.Dict.Blocks.{lookup_middle, erase_middle, IsDistinct-skip}
use rfmesh_workspace.Backend.Ws.{
  Registries, unregister, get, Send, broadcast_to, broadcast_one, after_broadcast, broadcast_loop,
  delivered, failed, note_tried, node_ids, discard, is_sub, dead, remove_sub, remove_all,
  push_to_ui_subscribers,
}

abbrev pub quiet : {Hello : Type 0} → (ℕ → Bool) → Send Hello
quiet fails ws r = (fails ws, r)

-- The nodes whose socket takes a send, and those whose socket does not.
abbrev pub reached : (ℕ → Bool) → Dict ℕ ℕ → List ℕ
reached fails [] = []
reached fails ((node_id, ws) ∷ d) = if fails ws then reached fails d else node_id ∷ reached fails d

abbrev pub missed : (ℕ → Bool) → Dict ℕ ℕ → List ℕ
missed fails [] = []
missed fails ((node_id, ws) ∷ d) = if fails ws then node_id ∷ missed fails d else missed fails d

abbrev pub alive : (ℕ → Bool) → Dict ℕ ℕ → Dict ℕ ℕ
alive fails [] = []
alive fails ((node_id, ws) ∷ d) = if fails ws then alive fails d else (node_id, ws) ∷ alive fails d

is_sub-discard :
    (ws gone : ℕ) (subs : List ℕ)
    → is_sub ws (discard gone subs) ≡ (if gone == ws then false else is_sub ws subs)
is_sub-discard ws gone [] = ground arith
is_sub-discard ws gone (sub ∷ subs) = ground (arith, is_sub-discard ws gone subs)

and_false : (b : Bool) → (b && false) ≡ false
and_false true = refl
and_false false = refl

module _ (fails : ℕ → Bool) where
  is_sub-dead :
      (ws : ℕ) (subs : List ℕ) → is_sub ws (dead fails subs) ≡ (is_sub ws subs && fails ws)
  unfolding dead
  is_sub-dead ws [] = refl
  is_sub-dead ws (sub ∷ subs) = elim (Bool-cases (sub == ws)) [
    | inl same ↦
        rw (same, ==→eq sub ws same)
          (elim (Bool-cases (fails ws)) [
            | inl raised ↦ rw (raised, ==_refl ws) refl
            | inr went ↦ rw (went, is_sub-dead ws subs, went) (and_false (is_sub ws subs))
          ])
    | inr other ↦ rw other (elim (Bool-cases (fails sub)) [
      | inl raised ↦ rw (raised, other) (is_sub-dead ws subs)
      | inr went ↦ rw went (is_sub-dead ws subs)
    ])
  ]

module _ {Hello : Type 0} (fails : ℕ → Bool) where
  with_nodes : Registries Hello → Dict ℕ ℕ → Registries Hello
  with_nodes r d = record r { by_node = d }

  broadcast_one-alive :
      (front : Dict ℕ ℕ) (node_id ws : ℕ) (back : Dict ℕ ℕ) (r : Registries Hello)
      → IsDistinct (front ++ ((node_id, ws) ∷ back))
      → fails ws ≡ false
      → broadcast_one (quiet fails) node_id (with_nodes r (front ++ ((node_id, ws) ∷ back)))
        ≡ (delivered, with_nodes r (front ++ ((node_id, ws) ∷ back)))
  unfolding broadcast_to after_broadcast get with_nodes
  broadcast_one-alive front node_id ws back r h went =
      ap
        (λ entry.
          broadcast_to (quiet fails) node_id entry (with_nodes r (front ++ ((node_id, ws) ∷ back))))
        (lookup_middle front node_id ws back h)
      ∙ rw went refl

  broadcast_one-dead :
      (front : Dict ℕ ℕ) (node_id ws : ℕ) (back : Dict ℕ ℕ) (r : Registries Hello)
      → IsDistinct (front ++ ((node_id, ws) ∷ back))
      → fails ws ≡ true
      → broadcast_one (quiet fails) node_id (with_nodes r (front ++ ((node_id, ws) ∷ back)))
        ≡ (failed, with_nodes r (front ++ back))
  unfolding broadcast_to after_broadcast get unregister with_nodes
  broadcast_one-dead front node_id ws back r h raised =
      ap
        (λ entry.
          broadcast_to (quiet fails) node_id entry (with_nodes r (front ++ ((node_id, ws) ∷ back))))
        (lookup_middle front node_id ws back h)
      ∙ rw
          (
            raised,
            lookup_middle front node_id ws back h,
            ==_refl ws,
            erase_middle front node_id ws back h,
          )
          refl

  -- The loop over the nodes that are left, behind those that took the command.
  broadcast_loop-behind :
      (front d : Dict ℕ ℕ) (r : Registries Hello)
      → IsDistinct (front ++ d)
      → broadcast_loop (quiet fails) (keys d) (with_nodes r (front ++ d))
        ≡ ((reached fails d, missed fails d), with_nodes r (front ++ alive fails d))
  unfolding broadcast_loop
  broadcast_loop-behind front [] r h = refl
  broadcast_loop-behind front ((node_id, ws) ∷ d) r h = elim (Bool-cases (fails ws)) [
    | inl raised ↦
        rw
          (
            raised,
            broadcast_one-dead front node_id ws d r h raised,
            broadcast_loop-behind front d r (IsDistinct-skip front node_id ws d h),
          )
          refl
    | inr went ↦
        let one = (node_id, ws) ∷ [] in
        let later =
          broadcast_loop-behind (front ++ one) d r
            (subst IsDistinct (sym (append_assoc front one d)) h) in
        rw (went, broadcast_one-alive front node_id ws d r h went)
          (ap (λ x. (note_tried delivered node_id x.0, x.1))
            (ap (λ e. broadcast_loop (quiet fails) (keys d) (with_nodes r e))
                (sym (append_assoc front one d))
              ∙ later
              ∙ ap (λ e. ((reached fails d, missed fails d), with_nodes r e))
                  (append_assoc front one (alive fails d))))
  ]

  -- A broadcast hands the command to exactly the nodes whose socket takes it, reports exactly the
  -- others as failed, each in the order of the registry, and exactly the others' entries leave the
  -- registry.
  pub broadcast_loop_partition :
      (r : Registries Hello)
      → IsDistinct r.by_node
      → broadcast_loop (quiet fails) (node_ids r) r ≡ (
        (reached fails r.by_node, missed fails r.by_node),
        record r { by_node = alive fails r.by_node },
      )
  unfolding with_nodes
  broadcast_loop_partition r h = broadcast_loop-behind [] r.by_node r h

  is_sub-remove_all :
      (ws : ℕ) (gone : List ℕ) (r : Registries Hello)
      → is_sub ws (remove_all gone r).subs ≡ (is_sub ws r.subs && not (is_sub ws gone))
  unfolding remove_all
  is_sub-remove_all ws [] r = ground arith
  is_sub-remove_all ws (g ∷ gone) r =
      is_sub-remove_all ws gone (remove_sub g r) ∙ rw (is_sub-discard ws g r.subs) (ground arith)

  -- After a push a socket is a subscriber if it was one and its send did not raise.
  pub push_to_ui_subscribers-is_sub :
      (ws : ℕ) (r : Registries Hello)
      → is_sub ws (push_to_ui_subscribers fails r).subs ≡ (is_sub ws r.subs && not (fails ws))
  unfolding push_to_ui_subscribers
  push_to_ui_subscribers-is_sub ws r =
      is_sub-remove_all ws (dead fails r.subs) r ∙ rw (is_sub-dead fails ws r.subs) (ground arith)
