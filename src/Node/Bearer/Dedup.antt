-- ===== src/Node/Bearer/Dedup.antt =====
-- The duplicate filter of `BothBearer.receive` over several calls.
use mathlib.Core.Path.{subst}
use rfmesh_workspace.Base.{
  ℕ, ◌+◌, ◌≤◌, ◌≡◌, refl, sym, ◌∙◌, List, [], ◌∷◌, ◌++◌, Bool, true, false, ◌&&◌, leb, ==→eq,
  ==_refl, Bool-cases, inl, inr, ◌⊎◌, All, All-append, arith,
}
use rfmesh_workspace.Node.Bearer.{
  Kind, bearing, status, Message, same_kind, same_key, BothBearer, evict_old, has_seen, admit,
  receive,
}

same_kind_refl : (k : Kind) → same_kind k k ≡ true
same_kind_refl bearing = refl
same_kind_refl status = refl

same_key_refl : (m : Message) → same_key m m ≡ true
unfolding same_key
same_key_refl m = rw (==_refl m.node_id, ==_refl m.t_unix_ns, same_kind_refl m.kind) refl

same_kind_eq : (a b : Kind) → same_kind a b ≡ true → a ≡ b
same_kind_eq bearing bearing h = refl
same_kind_eq status status h = refl
same_kind_eq bearing status h = absurd (cc)
same_kind_eq status bearing h = absurd (cc)

both : (a b : Bool) → (a && b) ≡ true → (a ≡ true) × (b ≡ true)
both true b h = (refl, h)
both false b h = absurd (cc)

-- Messages with one key are equal to every test of keys.
same_key_left : (a b c : Message) → same_key a b ≡ true → same_key b c ≡ true → same_key a c ≡ true
unfolding same_key
same_key_left a b c h g =
    let (nodes, others) = both _ _ h in
    let (times, kinds) = both _ _ others in
    rw
      (
        ==→eq a.node_id b.node_id nodes,
        ==→eq a.t_unix_ns b.t_unix_ns times,
        same_kind_eq a.kind b.kind kinds,
      )
      g

-- An entry for the message's key that is no older than t.
Remembers : Message → ℕ → List (Message × ℕ) → Type 0
Remembers m t [] = ⊥
Remembers m t ((k, at) ∷ rest) = ((same_key m k ≡ true) × (t ≤ at)) ⊎ Remembers m t rest

evict_old-Remembers :
    (window now t : ℕ) (m : Message) (seen : List (Message × ℕ))
    → now ≤ t + window
    → Remembers m t seen
    → Remembers m t (evict_old window now seen)
unfolding evict_old Remembers
evict_old-Remembers window now t m [] fresh h = elim h [ ]
evict_old-Remembers window now t m ((k, at) ∷ rest) fresh h =
    elim (Bool-cases (leb now (at + window))) [
      | inl keeps ↦ rw keeps h
      | inr old ↦ rw old (elim h [
        | inl (here, recent) ↦ absurd (ground arith)
        | inr later ↦ evict_old-Remembers window now t m rest fresh later
      ])
    ]

has_seen-Remembers :
    (m : Message) (t : ℕ) (seen : List (Message × ℕ)) → Remembers m t seen → has_seen m seen ≡ true
unfolding has_seen Remembers
has_seen-Remembers m t [] h = elim h [ ]
has_seen-Remembers m t ((k, at) ∷ rest) (inl (here, recent)) = rw here refl
has_seen-Remembers m t ((k, at) ∷ rest) (inr later) = elim (Bool-cases (same_key m k)) [
  | inl here ↦ rw here refl
  | inr other ↦ rw other (has_seen-Remembers m t rest later)
]

Remembers-append :
    (m : Message) (t : ℕ) (seen more : List (Message × ℕ))
    → Remembers m t seen
    → Remembers m t (seen ++ more)
unfolding Remembers
Remembers-append m t [] more h = elim h [ ]
Remembers-append m t ((k, at) ∷ rest) more (inl here) = inl here
Remembers-append m t ((k, at) ∷ rest) more (inr later) = inr (Remembers-append m t rest more later)

Remembers-last :
    (m : Message) (t : ℕ) (seen : List (Message × ℕ)) → Remembers m t (seen ++ ((m, t) ∷ []))
unfolding Remembers
Remembers-last m t [] = inl (same_key_refl m, omega arith)
Remembers-last m t ((k, at) ∷ rest) = inr (Remembers-last m t rest)

Remembers-same_key :
    (x m : Message) (t : ℕ) (seen : List (Message × ℕ))
    → same_key x m ≡ true
    → Remembers m t seen
    → Remembers x t seen
unfolding Remembers
Remembers-same_key x m t [] same h = h
Remembers-same_key x m t ((k, at) ∷ rest) same (inl (here, recent)) =
    inl (same_key_left x m k same here, recent)
Remembers-same_key x m t ((k, at) ∷ rest) same (inr later) =
    inr (Remembers-same_key x m t rest same later)

-- A message with a remembered key has been seen.
has_seen-same_key :
    (x m : Message) (t : ℕ) (seen : List (Message × ℕ))
    → same_key x m ≡ true
    → Remembers m t seen
    → has_seen x seen ≡ true
has_seen-same_key x m t seen same h =
    has_seen-Remembers x t seen (Remembers-same_key x m t seen same h)

admit-Remembers :
    (now t : ℕ) (m : Message) (messages : List Message) (seen : List (Message × ℕ))
    → Remembers m t seen
    → Remembers m t (admit now messages seen).1
unfolding admit
admit-Remembers now t m [] seen h = h
admit-Remembers now t m (x ∷ messages) seen h = elim (Bool-cases (has_seen x seen)) [
  | inl known ↦ rw known (admit-Remembers now t m messages seen h)
  | inr new ↦
      rw new
        (admit-Remembers now t m messages (seen ++ ((x, now) ∷ [])) (Remembers-append m t seen _ h))
]

-- While a key is remembered no message with it comes out.
admit-skips :
    (now t : ℕ) (m : Message) (messages : List Message) (seen : List (Message × ℕ))
    → Remembers m t seen
    → All (λ x. same_key x m ≡ false) (admit now messages seen).0
unfolding admit
admit-skips now t m [] seen h = tt
admit-skips now t m (x ∷ messages) seen h = elim (Bool-cases (has_seen x seen)) [
  | inl known ↦ rw known (admit-skips now t m messages seen h)
  | inr new ↦ elim (Bool-cases (same_key x m)) [
    | inl same ↦
        let clash : true ≡ false = sym (has_seen-same_key x m t seen same h) ∙ new in absurd (cc)
    | inr other ↦ rw new (
      other,
      admit-skips now t m messages (seen ++ ((x, now) ∷ [])) (Remembers-append m t seen _ h),
    )
  ]
]

abbrev pub IsAmong : Message → List Message → Type 0
IsAmong m [] = ⊥
IsAmong m (x ∷ rest) = (x ≡ m) ⊎ IsAmong m rest

-- What comes out is remembered.
admit-IsAmong :
    (now : ℕ) (m : Message) (messages : List Message) (seen : List (Message × ℕ))
    → IsAmong m (admit now messages seen).0
    → Remembers m now (admit now messages seen).1
unfolding admit
admit-IsAmong now m [] seen = λ h. elim h [ ]
admit-IsAmong now m (x ∷ messages) seen = elim (Bool-cases (has_seen x seen)) [
  | inl known ↦ rw known (admit-IsAmong now m messages seen)
  | inr new ↦ rw new (λ h. elim h [
    | inl here ↦ admit-Remembers now now m messages (seen ++ ((x, now) ∷ [])) (
        subst (λ y. Remembers m now (seen ++ ((y, now) ∷ []))) (sym here)
          (Remembers-last m now seen))
    | inr later ↦ admit-IsAmong now m messages (seen ++ ((x, now) ∷ [])) later
  ])
]

-- Calls of `receive` one after another, with the time and what the two bearers received.
pub record Call : Type 0 where
  pub now : ℕ
  pub wifi : List Message
  pub lora : List Message

abbrev pub receive_all : List Call → BothBearer → List Message
receive_all [] s = []
receive_all (c ∷ calls) s =
    let got = receive c.now c.wifi c.lora s in got.0 ++ receive_all calls got.1

receive_all-skips :
    (calls : List Call) (t : ℕ) (m : Message) (s : BothBearer)
    → All (λ c. c.now ≤ t + s.dedup_window) calls
    → Remembers m t s.seen
    → All (λ x. same_key x m ≡ false) (receive_all calls s)
unfolding receive
receive_all-skips [] t m s fresh h = tt
receive_all-skips (c ∷ calls) t m s fresh h =
    let kept = evict_old-Remembers s.dedup_window c.now t m s.seen fresh.0 h in
    let messages = c.wifi ++ c.lora in
    let left = evict_old s.dedup_window c.now s.seen in
    All-append (λ x. same_key x m ≡ false) (admit c.now messages left).0 _
      (admit-skips c.now t m messages left kept)
      (receive_all-skips calls t m (record s { seen = (admit c.now messages left).1 }) fresh.1
        (admit-Remembers c.now t m messages left kept))

-- If a call of `receive` hands a message on, then none of the calls that follow within the window
-- hands on a message with the same node, time and kind, on whichever bearer it comes in.
pub receive_once :
    (now : ℕ) (wifi lora : List Message) (s : BothBearer) (m : Message) (calls : List Call)
    → IsAmong m (receive now wifi lora s).0
    → All (λ c. c.now ≤ now + s.dedup_window) calls
    → All (λ x. same_key x m ≡ false) (receive_all calls (receive now wifi lora s).1)
unfolding receive
receive_once now wifi lora s m calls among soon =
    receive_all-skips calls now m _ soon
      (admit-IsAmong now m (wifi ++ lora) (evict_old s.dedup_window now s.seen) among)
