-- ===== src/Socket/Reserve.antt =====
-- skynet/skynet-src/socket_server.c: the slots and their ids.
use mathlib.Core.Option
use skynet_athena.Base.{
  Bool-cases, Option, Option-cases, arith, false, if◌then◌else◌, inl, inr, none, refl, some, subst,
  suc, true, update, update_ne, update_self, zero, ℕ, ℕ_discrete, ◌%◌, ◌+◌, ◌-◌, ◌<◌, ◌^◌, ◌≡◌, ◌≢◌,
  ◌⊎◌,
}
use skynet_athena.Socket.{Socket, hash_id, is_invalid, max_socket, reserve, unknown}

-- `alloc_id` and `slot` of `struct socket_server`.
pub record SocketServer : Type 0 where
  pub alloc_id : ℕ
  pub slot : ℕ → Socket

-- The id after `n`: `int`, and back to 0 where the sum would be negative.
abbrev pub next_id : ℕ → ℕ
next_id n = (n + 1) % 2 ^ 31

-- A slot taken for an id.
abbrev pub reserved : ℕ → Socket → Socket
reserved id s = record s { type = reserve; id = id; protocol = unknown; udpconnecting = 0 }

-- The loop of `reserve_id` on the rounds left, with no other thread in it: the compare-and-swap then
-- takes a slot that was seen free, and the retry is left out.
unfoldable pub reserve_loop : ℕ → SocketServer → Option ℕ × SocketServer
reserve_loop zero ss = (none, ss)
reserve_loop (suc n) ss =
    let id = next_id ss.alloc_id in
    let rest = reserve_loop n (record ss { alloc_id = id }) in
    if is_invalid (ss.slot (hash_id id)).type
    then (
      some id,
      record {
        alloc_id = id;
        slot = update ss.slot (hash_id id) (reserved id (ss.slot (hash_id id)));
      },
    )
    else rest

-- `reserve_id`; `none` is -1.
unfoldable pub reserve_id : SocketServer → Option ℕ × SocketServer
reserve_id ss = reserve_loop max_socket ss

-- The loop without a free slot among the `n` ids that it tries.
reserve_loop-none :
    (n : ℕ) (ss : SocketServer)
    → (reserve_loop n ss).0 ≡ none
    → (i : ℕ) → i < n
    → is_invalid (ss.slot (hash_id ((ss.alloc_id + i + 1) % 2 ^ 31))).type ≡ false
unfolding reserve_loop
reserve_loop-none zero ss e i lt = absurd (omega arith)
reserve_loop-none (suc n) ss e i lt =
    let id = next_id ss.alloc_id in
    elim (Bool-cases (is_invalid (ss.slot (hash_id id)).type)) [
      | inl free ↦ cc (rw free at e)
      | inr used ↦ elim (ℕ_discrete i 0) [
        | yes first ↦ subst (λ j. is_invalid (ss.slot (hash_id j)).type ≡ false) (omega arith) used
        | no later ↦
            subst (λ j. is_invalid (ss.slot (hash_id j)).type ≡ false) (omega arith)
              (reserve_loop-none n (record ss { alloc_id = id }) (rw used at e) (i - 1)
                (omega arith))
      ]
    ]

-- The slot found.
pub record Reserved (ss ss' : SocketServer) (id : ℕ) : Type 0 where
  pub below : id < 2 ^ 31
  pub free : is_invalid (ss.slot (hash_id id)).type ≡ true
  pub now : ss'.slot (hash_id id) ≡ reserved id (ss.slot (hash_id id))
  pub others : (k : ℕ) → k ≢ hash_id id → ss'.slot k ≡ ss.slot k
  pub counter : ss'.alloc_id ≡ id

reserve_loop-some :
    (n : ℕ) (ss : SocketServer) (id : ℕ)
    → (reserve_loop n ss).0 ≡ some id
    → Reserved ss (reserve_loop n ss).1 id
unfolding reserve_loop
reserve_loop-some zero ss id e = cc
reserve_loop-some (suc n) ss id e =
    let j = next_id ss.alloc_id in
    elim (Bool-cases (is_invalid (ss.slot (hash_id j)).type)) [
      | inl free ↦
          subst (λ i. Reserved ss (reserve_loop (suc n) ss).1 i)
            (Option.some-injective _ _ (rw free at e))
            (rw free (record {
              below = omega arith;
              free = free;
              now = update_self ss.slot (hash_id j) (reserved j (ss.slot (hash_id j)));
              others =
                  λ k ne. update_ne ss.slot (hash_id j) k (reserved j (ss.slot (hash_id j))) ne;
              counter = refl;
            }))
      | inr used ↦
          let ih = reserve_loop-some n (record ss { alloc_id = j }) id (rw used at e) in
          rw used (record {
            below = ih.below;
            free = ih.free;
            now = ih.now;
            others = ih.others;
            counter = ih.counter;
          })
    ]

-- `reserve_id` either returns an id whose slot was free, takes that slot for it and leaves all the
-- others alone; or it returns -1, and then no slot is free.
pub reserve_id_lem :
    (ss : SocketServer)
    → ((id : ℕ) × ((reserve_id ss).0 ≡ some id) × Reserved ss (reserve_id ss).1 id)
      ⊎ (((reserve_id ss).0 ≡ none)
          × ((k : ℕ) → k < max_socket → is_invalid (ss.slot k).type ≡ false))
unfolding reserve_id
reserve_id_lem ss = elim (Option-cases (reserve_loop max_socket ss).0) [
  | inr (id, e) ↦ inl (id, e, reserve_loop-some max_socket ss id e)
  | inl e ↦ inr (
    e,
    λ k lt.
        let i = (k + 65536 - (ss.alloc_id + 1) % 65536) % 65536 in
        subst (λ j. is_invalid (ss.slot j).type ≡ false) (omega arith)
          (reserve_loop-none max_socket ss e i (omega arith)),
  )
]
