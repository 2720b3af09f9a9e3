-- ===== src/Session/Tests.antt =====
-- Runs of src/session/mod.rs on concrete tables.
use straw.Common.{ℕ, ◌≡◌, refl, List, [], ◌∷◌, none, some, get, erase, insert}
use straw.Ip.{v4}
use straw.Capsule.{AssignedAddress}
use straw.Session.{
  new_manager, new_session, compose, stream_id, conn_seq, is_full, insert_session, modify,
  set_assigned, remove, assigned_snapshot,
}
use straw.Session.Coherent.{
  Op, insert_op, set_assigned_op, remove_op, apply, apply_all, Coherent, apply_all-Coherent,
}

-- Stream 8 of connection 5.
composed : (stream_id (compose 5 8) ≡ 8) × (conn_seq (compose 5 8) ≡ 5)
unfolding compose stream_id conn_seq
composed = (refl, refl)

abbrev addresses : List AssignedAddress
addresses =
    record { request_id = 0; ip_version = 4; ip_address = v4 0x0a640002; prefix_length = 32 } ∷ []

abbrev ops : List (Op ℕ ℕ)
ops =
    insert_op (new_session ℕ ℕ 4 0 0 100)
    ∷ set_assigned_op 4 addresses
    ∷ insert_op (new_session ℕ ℕ 8 0 0 200)
    ∷ []

-- The second session is over the limit of one.
one_session : get (apply_all ℕ ℕ (new_manager ℕ ℕ 1) ops).sessions 8 ≡ none
unfolding apply_all apply new_manager insert_session is_full new_session set_assigned modify get
    insert erase
one_session = refl

apply_all-Coherent_example : Coherent ℕ ℕ (apply_all ℕ ℕ (new_manager ℕ ℕ 1) ops)
apply_all-Coherent_example = apply_all-Coherent ℕ ℕ 1 ops

-- A snapshot written once the session is gone stays.
left_over :
    assigned_snapshot ℕ ℕ
      (apply_all ℕ ℕ (new_manager ℕ ℕ 1) (remove_op 4 ∷ set_assigned_op 4 addresses ∷ []))
      4
    ≡ some addresses
unfolding assigned_snapshot apply_all apply new_manager remove set_assigned modify get insert erase
left_over = refl
