-- ===== src/Backend/Ws/Lifetimes.antt =====
-- The sockets of the nodes over a sequence of events: connections, ends of handlers, and evictions
-- after a send that raised, in any order.
use rfmesh_workspace.Base.{
  ℕ, ◌≡◌, refl, ◌∙◌, List, [], ◌∷◌, Option, none, some, Bool, true, false, not, ◌&&◌, ◌==◌, ==→eq,
  ==_refl, Bool-cases, All, inl, inr, if◌then◌else◌, arith,
}
use rfmesh_workspace.Base.Dict.{number_key, lookup, lookup-insert, lookup-erase}
use rfmesh_workspace.Backend.Ws.{
  Registries, is_own, register, unregister, get, set_hello, add_sub, remove_sub,
}

-- A stretch of a handler that changes the registries, with the node and the socket it is for.
pub data Event (Hello : Type 0) : Type 0 where
  connected ended evicted : ℕ → ℕ → Event Hello
  said_hello : ℕ → Hello → Event Hello
  ui_connected ui_ended : ℕ → Event Hello

-- What a node's entry is after an end of a handler for the socket.
abbrev pub left_by : Option ℕ → ℕ → Option ℕ
left_by entry ws = if is_own entry ws then none else entry

stays :
    (b c : Bool) (ws : ℕ)
    → not (b && c) ≡ true
    → (if b then (if c then none else some ws) else some ws) ≡ some ws
stays true true ws h = absurd (cc)
stays true false ws h = refl
stays false c ws h = refl

module _ {Hello : Type 0} where
  unfoldable pub happen : Event Hello → Registries Hello → Registries Hello
  happen (connected node_id ws) r = register node_id ws r
  happen (ended node_id ws) r = unregister node_id ws r
  happen (evicted node_id ws) r = unregister node_id ws r
  happen (said_hello node_id hello) r = set_hello node_id hello r
  happen (ui_connected ws) r = add_sub ws r
  happen (ui_ended ws) r = remove_sub ws r

  unfoldable pub happen_all : List (Event Hello) → Registries Hello → Registries Hello
  happen_all [] r = r
  happen_all (e ∷ events) r = happen_all events (happen e r)

  -- The event neither connects the node again nor ends or evicts this very socket of it.
  abbrev pub spares : ℕ → ℕ → Event Hello → Bool
  spares node_id ws (connected m w) = not (m == node_id)
  spares node_id ws (ended m w) = not (m == node_id && ws == w)
  spares node_id ws (evicted m w) = not (m == node_id && ws == w)
  spares node_id ws (said_hello m h) = true
  spares node_id ws (ui_connected w) = true
  spares node_id ws (ui_ended w) = true

  pub get-unregister :
      (n m ws : ℕ) (r : Registries Hello)
      → get n (unregister m ws r) ≡ (if m == n then left_by (get n r) ws else get n r)
  unfolding get unregister
  get-unregister n m ws r = elim (Bool-cases (m == n)) [
    | inl same ↦
        rw (same, ==→eq m n same)
          (elim (Bool-cases (is_own (lookup n r.by_node) ws)) [
            | inl own ↦ rw own (lookup-erase n n r.by_node ∙ rw (==_refl n) refl)
            | inr newer ↦ rw newer refl
          ])
    | inr other ↦ rw other (elim (Bool-cases (is_own (lookup m r.by_node) ws)) [
      | inl own ↦ rw own (lookup-erase n m r.by_node ∙ rw other refl)
      | inr newer ↦ rw newer refl
    ])
  ]

  get-register :
      (n m ws : ℕ) (r : Registries Hello)
      → get n (register m ws r) ≡ (if m == n then some ws else get n r)
  unfolding get register
  get-register n m ws r = lookup-insert n m ws r.by_node

  happen-get :
      (n ws : ℕ) (e : Event Hello) (r : Registries Hello)
      → spares n ws e ≡ true
      → get n r ≡ some ws
      → get n (happen e r) ≡ some ws
  unfolding happen get set_hello
  happen-get n ws (connected m w) r spared h =
      get-register n m w r
      ∙ (elim (Bool-cases (m == n)) [ inl same ↦ absurd (ground arith) | inr other ↦ rw other h ])
  happen-get n ws (ended m w) r spared h =
      get-unregister n m w r ∙ rw h (stays (m == n) (ws == w) ws spared)
  happen-get n ws (evicted m w) r spared h =
      get-unregister n m w r ∙ rw h (stays (m == n) (ws == w) ws spared)
  happen-get n ws (said_hello m hello) r spared h = h
  happen-get n ws (ui_connected w) r spared h = h
  happen-get n ws (ui_ended w) r spared h = h

  happen_all-get :
      (n ws : ℕ) (events : List (Event Hello)) (r : Registries Hello)
      → All (λ e. spares n ws e ≡ true) events
      → get n r ≡ some ws
      → get n (happen_all events r) ≡ some ws
  unfolding happen_all
  happen_all-get n ws [] r spared h = h
  happen_all-get n ws (e ∷ events) r spared h =
      happen_all-get n ws events (happen e r) spared.1 (happen-get n ws e r spared.0 h)

  -- After a node has connected by a socket, commands for it go to that socket as long as the node
  -- does not connect again and neither that socket's own handler ends nor a send on it raises,
  -- whatever the handlers of its older sockets and of other nodes do.
  pub live_socket_stays :
      (n ws : ℕ) (events : List (Event Hello)) (r : Registries Hello)
      → All (λ e. spares n ws e ≡ true) events
      → get n (happen_all events (register n ws r)) ≡ some ws
  live_socket_stays n ws events r spared =
      happen_all-get n ws events (register n ws r) spared
        (get-register n n ws r ∙ rw (==_refl n) refl)
