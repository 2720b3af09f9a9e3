-- ===== src/UdpBind/Context/Table.antt =====
-- The life of a context in src/udp_bind/context.rs: registered, acknowledged, closed.
use straw.Common.{
  ◌⊎◌, get-erase_at, get-insert_at, ℕ, ◌%◌, ◌≡◌, refl, inl, inr, ◌==◌, if◌then◌else◌, none, some,
  Option-cases, Result, ok, err, panic, get, arith,
}
use straw.UdpBind.Context.{
  Binding, CompressionAssign, ContextTable, ContextError, duplicate, unknown, not_client_allocated,
  register, ack, close,
}

-- Where a context stands.
pub data Phase : Type 0 where
  absent : Phase
  proposed : Binding → Phase
  active : Binding → Phase

-- The phase that a table gives an id; `active` first, as the table's lookups do.
unfoldable pub phase : ContextTable → ℕ → Phase
phase self id = elim (get self.contexts id) [
  | some b ↦ active b
  | none ↦ elim (get self.pending id) [ some b ↦ proposed b | none ↦ absent ]
]

-- Only even ids stand for anything, and an id is in one of the two maps at most.
pub record IsWellFormed (self : ContextTable) : Type 0 where
  pub even : (id : ℕ) → (phase self id ≡ absent) ⊎ (id % 2 ≡ 0)
  pub apart : (id : ℕ) → (get self.contexts id ≡ none) ⊎ (get self.pending id ≡ none)

pub data Command : Type 0 where
  do_register : CompressionAssign → Command
  do_ack : ℕ → Command
  do_close : ℕ → Command

unfoldable pub step : ContextTable → Command → Result ContextError (Unit {0}) × ContextTable
step self (do_register a) = register self a
step self (do_ack id) = ack self id
step self (do_close id) = (ok tt, close self id)

-- The contexts as a state machine for each id.
abbrev pub update : (ℕ → Phase) → ℕ → Phase → ℕ → Phase
update p k x id = if id == k then x else p id

abbrev pub propose : Phase → CompressionAssign → Result ContextError Phase
propose absent a =
    if a.context_id % 2 == 0
    then ok (proposed a.binding)
    else err (not_client_allocated a.context_id)
propose (proposed b) a =
    if a.context_id % 2 == 0
    then err (duplicate a.context_id)
    else err (not_client_allocated a.context_id)
propose (active b) a =
    if a.context_id % 2 == 0
    then err (duplicate a.context_id)
    else err (not_client_allocated a.context_id)

abbrev pub promote : Phase → ℕ → Result ContextError Phase
promote absent id = err (unknown id)
promote (proposed b) id = ok (active b)
promote (active b) id = err (unknown id)

abbrev pub moved :
    (ℕ → Phase) → ℕ → Result ContextError Phase → Result ContextError (Unit {0}) × (ℕ → Phase)
moved p id (ok x) = (ok tt, update p id x)
moved p id (err e) = (err e, p)
moved p id panic = (panic, p)

unfoldable pub spec : (ℕ → Phase) → Command → Result ContextError (Unit {0}) × (ℕ → Phase)
spec p (do_register a) = moved p a.context_id (propose (p a.context_id) a)
spec p (do_ack id) = moved p id (promote (p id) id)
spec p (do_close id) = (ok tt, update p id absent)

module _ (self : ContextTable) where
  register_answer :
      (a : CompressionAssign) → (register self a).0 ≡ (spec (phase self) (do_register a)).0
  unfolding phase register spec
  register_answer a = ground arith

  phase-register :
      (a : CompressionAssign) (id : ℕ)
      → phase (register self a).1 id ≡ (spec (phase self) (do_register a)).1 id
  unfolding phase register spec
  phase-register a id = ground (arith, get-insert_at self.pending a.context_id a.binding id)

  phase-close : (k id : ℕ) → phase (close self k) id ≡ (spec (phase self) (do_close k)).1 id
  unfolding phase close spec
  phase-close k id = ground (arith, get-erase_at self.pending k id, get-erase_at self.contexts k id)

  module _ (w : IsWellFormed self) where
    ack_answer : (k : ℕ) → (ack self k).0 ≡ (spec (phase self) (do_ack k)).0
    unfolding phase ack spec
    ack_answer k = ground (arith, w.apart k)

    phase-ack : (k id : ℕ) → phase (ack self k).1 id ≡ (spec (phase self) (do_ack k)).1 id
    unfolding phase ack spec
    phase-ack k id = elim (Option-cases (get self.pending k)) [
      | inl e ↦ ground (arith, e, w.apart k)
      | inr (b, e) ↦
          ground (
            arith,
            e,
            w.apart k,
            get-insert_at self.contexts k b id,
            get-erase_at self.pending k id,
          )
    ]

    register_apart :
        (a : CompressionAssign) (id : ℕ)
        → (get (register self a).1.contexts id ≡ none) ⊎ (get (register self a).1.pending id ≡ none)
    unfolding register
    register_apart a id =
        ground (arith, w.apart id, get-insert_at self.pending a.context_id a.binding id)

    ack_apart :
        (k id : ℕ)
        → (get (ack self k).1.contexts id ≡ none) ⊎ (get (ack self k).1.pending id ≡ none)
    unfolding ack
    ack_apart k id = elim (Option-cases (get self.pending k)) [
      | inl e ↦ ground (arith, e, w.apart id)
      | inr (b, e) ↦
          ground (
            arith,
            e,
            w.apart id,
            get-insert_at self.contexts k b id,
            get-erase_at self.pending k id,
          )
    ]

    close_apart :
        (k id : ℕ)
        → (get (close self k).contexts id ≡ none) ⊎ (get (close self k).pending id ≡ none)
    unfolding close
    close_apart k id =
        ground (arith, w.apart id, get-erase_at self.contexts k id, get-erase_at self.pending k id)

    register_even :
        (a : CompressionAssign) (id : ℕ) → (phase (register self a).1 id ≡ absent) ⊎ (id % 2 ≡ 0)
    unfolding spec
    register_even a id = ground (arith, w.even id, phase-register a id)

    ack_even : (k id : ℕ) → (phase (ack self k).1 id ≡ absent) ⊎ (id % 2 ≡ 0)
    unfolding spec
    ack_even k id = ground (arith, w.even id, w.even k, phase-ack k id)

    close_even : (k id : ℕ) → (phase (close self k) id ≡ absent) ⊎ (id % 2 ≡ 0)
    unfolding spec
    close_even k id = ground (arith, w.even id, phase-close k id)

    -- On a well-formed table each of register, acknowledge and close answers and moves every id as the
    -- state machine does, and keeps the table well-formed.
    pub step-spec :
        (c : Command)
        → ((step self c).0 ≡ (spec (phase self) c).0)
          × (phase (step self c).1 ≡ (spec (phase self) c).1)
          × IsWellFormed (step self c).1
    unfolding step spec
    step-spec (do_register a) = (
      register_answer a,
      λ i id. phase-register a id i,
      record { even = register_even a; apart = register_apart a },
    )
    step-spec (do_ack k) =
        (ack_answer k, λ i id. phase-ack k id i, record { even = ack_even k; apart = ack_apart k })
    step-spec (do_close k) =
        (refl, λ i id. phase-close k id i, record { even = close_even k; apart = close_apart k })
