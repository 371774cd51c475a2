-- ===== src/Socket/Flush.antt =====
-- skynet/skynet-src/socket_server.c: what a pass of the socket thread over the write lists of a TCP
-- socket sends.
use skynet_athena.Base.{
  ==_iff, Bool-cases, In, List, [], ap, append_assoc, ap₂, arith, drop, false, inl, inr, min, refl,
  subst, suc, sym, take, true, zero, ℕ, ◌++◌, ◌+◌, ◌-◌, ◌==◌, ◌∙◌, ◌∷◌, ◌≡◌, ◌≤◌,
}
use skynet_athena.Socket.{WriteBuffer}
use skynet_athena.Socket.Send.{
  Outcome, Sent, again, eintr, failed, offered, stop, write_list, wrote,
}

-- The bytes that wait in a write list, in order.
abbrev pub pending : List WriteBuffer → List ℕ
pending [] = []
pending (b ∷ bs) = offered b ++ pending bs

abbrev pub size_of : List WriteBuffer → ℕ
size_of [] = 0
size_of (b ∷ bs) = b.sz + size_of bs

-- No node has been sent in part, and none is a user object.
abbrev pub IsFresh : List WriteBuffer → Type 0
IsFresh [] = Unit
IsFresh (b ∷ bs) = ((b.userobject ≡ false) × (b.ptr ≡ 0)) × IsFresh bs

-- The same of all nodes but the first.
abbrev pub IsFreshTail : List WriteBuffer → Type 0
IsFreshTail [] = Unit
IsFreshTail (b ∷ bs) = IsFresh bs

drop-nil : (n : ℕ) → drop {A = ℕ} n [] ≡ []
drop-nil zero = refl
drop-nil (suc n) = refl

take-nil : (n : ℕ) → take {A = ℕ} n [] ≡ []
take-nil zero = refl
take-nil (suc n) = refl

drop-drop : (p n : ℕ) (l : List ℕ) → drop (p + n) l ≡ drop n (drop p l)
drop-drop zero n l = let e : 0 + n ≡ n = omega arith in rw e refl
drop-drop (suc p) n [] = drop-nil (suc p + n) ∙ sym (drop-nil n)
drop-drop (suc p) n (x ∷ l) =
    let e : suc p + n ≡ suc (p + n) = omega arith in rw e (drop-drop p n l)

take-split :
    (n m : ℕ) (l : List ℕ) → n ≤ m → take n (take m l) ++ take (m - n) (drop n l) ≡ take m l
take-split zero m l le = let e : m - 0 ≡ m = omega arith in rw e refl
take-split (suc n) zero l le = absurd (omega arith)
take-split (suc n) (suc m) [] le = take-nil (suc m - suc n)
take-split (suc n) (suc m) (x ∷ l) le =
    let e : suc m - suc n ≡ m - n = omega arith in
    rw e (ap (λ r. x ∷ r) (take-split n m l (omega arith)))

-- Taking bytes of a node and moving its pointer over them loses nothing.
offered-split :
    (b : WriteBuffer) (n : ℕ)
    → n ≤ b.sz
    → take n (offered b) ++ offered (record b { ptr = b.ptr + n; sz = b.sz - n }) ≡ offered b
offered-split b n le =
    ap (λ l. take n (offered b) ++ take (b.sz - n) l) (drop-drop b.ptr n b.buffer)
    ∙ take-split n b.sz (drop b.ptr b.buffer) le

-- What a pass over a list leaves and what it has sent are the list together.
pub record Sends (bs : List WriteBuffer) (r : Sent) : Type 0 where
  pub bytes : r.out ++ pending r.list ≡ pending bs
  pub counted : r.sent + size_of r.list ≡ size_of bs
  pub fresh : IsFresh bs → IsFreshTail r.list

-- A pass that stops at once.
stop-Sends : (bs : List WriteBuffer) (os : List Outcome) → Sends bs (stop bs os)
stop-Sends [] os = record { bytes = refl; counted = omega arith; fresh = λ f. f }
stop-Sends (b ∷ bs) os = record { bytes = refl; counted = omega arith; fresh = λ f. f.1 }

take-take : (n : ℕ) (l : List ℕ) → take n (take n l) ≡ take n l
take-take zero l = refl
take-take (suc n) [] = refl
take-take (suc n) (x ∷ l) = ap (λ r. x ∷ r) (take-take n l)

take_all : (b : WriteBuffer) (n : ℕ) → n ≡ b.sz → take n (offered b) ≡ offered b
take_all b n e =
    subst (λ m. take m (offered b) ≡ offered b) (sym e) (take-take b.sz (drop b.ptr b.buffer))

-- However the calls of `write` end, no byte is lost, doubled or moved.
pub write_list-Sends : (os : List Outcome) (bs : List WriteBuffer) → Sends bs (write_list os bs)
unfolding write_list
write_list-Sends os [] = stop-Sends [] os
write_list-Sends [] (b ∷ bs) = stop-Sends (b ∷ bs) []
write_list-Sends (eintr ∷ os) (b ∷ bs) = write_list-Sends os (b ∷ bs)
write_list-Sends (again ∷ os) (b ∷ bs) = stop-Sends (b ∷ bs) os
write_list-Sends (failed ∷ os) (b ∷ bs) = record {
  bytes = refl;
  counted = omega arith;
  fresh = λ f. f.1;
}
write_list-Sends (wrote k ∷ os) (b ∷ bs) =
    let n = min k b.sz in
    let ih = write_list-Sends os bs in
    elim (Bool-cases (n == b.sz)) [
      | inl e ↦ rw e (record {
        bytes =
            append_assoc (take n (offered b)) _ _
            ∙ ap₂ ◌++◌ (take_all b n ((==_iff n b.sz).0 e)) ih.bytes;
        counted = omega (arith, ih.counted, (==_iff n b.sz).0 e);
        fresh = λ f. ih.fresh f.1;
      })
      | inr e ↦ rw e (record {
        bytes =
            sym (append_assoc (take n (offered b)) _ (pending bs))
            ∙ ap (λ l. l ++ pending bs) (offered-split b n (omega arith));
        counted = omega arith;
        fresh = λ f. f.1;
      })
    ]

-- An error of `write` is one of the outcomes, and so is one that a later pass meets.
pub write_list-broken :
    (os : List Outcome) (bs : List WriteBuffer) → (write_list os bs).broken ≡ true → In failed os
unfolding write_list
write_list-broken os [] e = cc
write_list-broken [] (b ∷ bs) e = cc
write_list-broken (eintr ∷ os) (b ∷ bs) e = inr (write_list-broken os (b ∷ bs) e)
write_list-broken (again ∷ os) (b ∷ bs) e = cc
write_list-broken (failed ∷ os) (b ∷ bs) e = inl refl
write_list-broken (wrote k ∷ os) (b ∷ bs) e = elim (Bool-cases (min k b.sz == b.sz)) [
  | inl all ↦ inr (write_list-broken os bs (rw all at e))
  | inr part ↦ cc (rw part at e)
]

pub write_list-script :
    (os : List Outcome) (bs : List WriteBuffer) → In failed (write_list os bs).script → In failed os
unfolding write_list
write_list-script os [] h = h
write_list-script [] (b ∷ bs) h = h
write_list-script (eintr ∷ os) (b ∷ bs) h = inr (write_list-script os (b ∷ bs) h)
write_list-script (again ∷ os) (b ∷ bs) h = inr h
write_list-script (failed ∷ os) (b ∷ bs) h = inr h
write_list-script (wrote k ∷ os) (b ∷ bs) h = elim (Bool-cases (min k b.sz == b.sz)) [
  | inl all ↦ inr (write_list-script os bs (rw all at h))
  | inr part ↦ inr (rw part at h)
]
