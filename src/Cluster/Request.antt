-- ===== src/Cluster/Request.antt =====
-- skynet/lualib-src/lua-cluster.c: a request read back by the node that gets it.
use skynet_athena.Cluster.{
  Address, fill_uint32, multi_part, name, next_session, number, packreq, packreq_multi,
  packreq_number, packreq_string, packrequest, request, unpack_uint32, unpackreq_number,
  unpackreq_string, unpackrequest,
}
use skynet_athena.Cluster.Words.{framed-pack, length-fill_uint32, unpack-fill}
use skynet_athena.Netpack
use skynet_athena.Base.{
  Bool, List, [], ap, arith, drop, drop-append_long, false, if◌then◌else◌, leb, length,
  length-append, ltb, refl, some, take, take-append_short, take_all, true, ℕ, ◌%◌, ◌++◌, ◌+◌, ◌-◌,
  ◌<◌, ◌==◌, ◌^◌, ◌||◌, ◌∙◌, ◌∷◌, ◌≡◌,
}

-- The session of a push is sent as 0.
abbrev pub sent_session : ℕ → Bool → ℕ
sent_session session is_push = if is_push then 0 else session

sent_session-lt :
    (session : ℕ) (is_push : Bool) → session < 2 ^ 31 → sent_session session is_push < 2 ^ 32
sent_session-lt session true h = omega arith
sent_session-lt session false h = omega arith

push_flag :
    (session : ℕ) (is_push : Bool) → 0 < session → (sent_session session is_push == 0) ≡ is_push
push_flag session true h = refl
push_flag session false h = ground arith

pub session_fits :
    (session : ℕ)
    → 0 < session
    → session < 2 ^ 31
    → ((session == 0) || leb (2 ^ 31) session) ≡ false
session_fits session pos lt =
    let a : (session == 0) ≡ false = ground arith in
    let b : leb (2 ^ 31) session ≡ false = ground arith in rw (a, b) refl

-- A call whose package goes out in one piece.
packrequest_one :
    (addr : Address) (session : ℕ) (msg : List ℕ) (is_push : Bool) (wire : List ℕ)
    → 0 < session
    → session < 2 ^ 31
    → packreq addr session msg is_push ≡ some (wire, 0)
    → packrequest addr session (some msg) is_push ≡ some (wire, next_session session, [])
unfolding packrequest packreq_multi
packrequest_one addr session msg is_push wire pos lt e =
    rw (session_fits session pos lt) (rw (e, packrequest) refl)

number_body : ℕ → ℕ → List ℕ → List ℕ
number_body n session msg = 0 ∷ (fill_uint32 n ++ (fill_uint32 session ++ msg))

length-number_body :
    (n session : ℕ) (msg : List ℕ) → length msg + 9 ≡ length (number_body n session msg)
unfolding number_body fill_uint32
length-number_body n session msg = omega arith

unpackreq_number_lem :
    (n session : ℕ) (msg : List ℕ)
    → n < 2 ^ 32
    → session < 2 ^ 32
    → unpackrequest (number_body n session msg)
      ≡ some (request (number n) session msg (session == 0))
unfolding unpackrequest unpackreq_number number_body
unpackreq_number_lem n session msg hn hs =
    let body = number_body n session msg in
    let long : ltb (length body) 9 ≡ false = ground (arith, length-number_body n session msg) in
    let address : unpack_uint32 body 1 ≡ n =
      unpack-fill (0 ∷ []) (fill_uint32 session ++ msg) n 1 hn refl in
    let at : 5 ≡ length (0 ∷ fill_uint32 n) = omega (arith, length-fill_uint32 n) in
    let its : unpack_uint32 body 5 ≡ session =
      unpack-fill (0 ∷ fill_uint32 n) msg session 5 hs at in
    let rest : drop 9 body ≡ msg = unfold fill_uint32 in refl in rw (long, address, its, rest) refl

-- A request to a handle with a message below 32K: `packrequest` makes one package, which `netpack`
-- would make of its body, and `lunpackrequest` of that body gives back the handle in 32 bits, the
-- session (0 for a push), the message and the push mark.
pub unpackrequest-number :
    (n session : ℕ) (msg : List ℕ) (is_push : Bool)
    → 0 < session
    → session < 2 ^ 31
    → length msg < multi_part
    → (body : List ℕ) × (wire : List ℕ) × (packrequest (number n) session (some msg) is_push
        ≡ some (wire, next_session session, []))
      × (Netpack.pack body ≡ some wire)
      × (unpackrequest body
          ≡ some (request (number (n % 2 ^ 32)) (sent_session session is_push) msg is_push))
unpackrequest-number n session msg is_push pos lt short =
    let s = sent_session session is_push in
    let body = number_body (n % 2 ^ 32) s msg in
    let size = length-number_body (n % 2 ^ 32) s msg in
    let (wire, made, packed) = framed-pack (length msg + 9) body size (omega arith) in
    let t : ltb (length msg) multi_part ≡ true = ground arith in
    let e : packreq (number n) session msg is_push ≡ some (wire, 0) =
      unfold packreq packreq_number number_body in rw (t, made) refl in
    (
      body,
      wire,
      packrequest_one (number n) session msg is_push wire pos lt e,
      packed,
      unpackreq_number_lem (n % 2 ^ 32) s msg (omega arith) (sent_session-lt session is_push lt)
          ∙ ap (λ b. some (request (number (n % 2 ^ 32)) s msg b)) (push_flag session is_push pos),
    )

name_body : List ℕ → ℕ → List ℕ → List ℕ
name_body s session msg = 0x80 ∷ length s ∷ (s ++ (fill_uint32 session ++ msg))

length-name_body :
    (s : List ℕ) (session : ℕ) (msg : List ℕ)
    → length msg + 6 + length s ≡ length (name_body s session msg)
unfolding name_body
length-name_body s session msg = omega (
  arith,
  length-append s (fill_uint32 session ++ msg),
  length-append (fill_uint32 session) msg,
  length-fill_uint32 session,
)

unpackreq_string_lem :
    (s : List ℕ) (session : ℕ) (msg : List ℕ)
    → session < 2 ^ 32
    → unpackrequest (name_body s session msg) ≡ some (request (name s) session msg (session == 0))
unfolding unpackrequest unpackreq_string name_body
unpackreq_string_lem s session msg hs =
    let body = name_body s session msg in
    let size = length-name_body s session msg in
    let two : ltb (length body) 2 ≡ false = ground (arith, size) in
    let long : ltb (length body) (length s + 6) ≡ false = ground (arith, size) in
    let back : take (length s) (s ++ (fill_uint32 session ++ msg)) ≡ s =
      take-append_short (length s) s (fill_uint32 session ++ msg) (omega arith)
      ∙ take_all (length s) s (omega arith) in
    let its : unpack_uint32 body (length s + 2) ≡ session =
      unpack-fill (0x80 ∷ length s ∷ s) msg session (length s + 2) hs (omega arith) in
    let rest : drop (length s + 6) body ≡ msg =
      drop-append_long (length s + 6) 4 (0x80 ∷ length s ∷ s) (fill_uint32 session ++ msg)
        (omega arith)
      ∙ (unfold fill_uint32 in refl) in
    rw (two, long, back, its, rest) refl

-- The same for a request to a name of 1 to 255 bytes.
pub unpackrequest-name :
    (s : List ℕ) (session : ℕ) (msg : List ℕ) (is_push : Bool)
    → 0 < length s
    → length s < 2 ^ 8
    → 0 < session
    → session < 2 ^ 31
    → length msg < multi_part
    → (body : List ℕ) × (wire : List ℕ) × (packrequest (name s) session (some msg) is_push
        ≡ some (wire, next_session session, []))
      × (Netpack.pack body ≡ some wire)
      × (unpackrequest body ≡ some (request (name s) (sent_session session is_push) msg is_push))
unpackrequest-name s session msg is_push ns ls pos lt short =
    let id = sent_session session is_push in
    let body = name_body s id msg in
    let size = length-name_body s id msg in
    let (wire, made, packed) = framed-pack (length msg + 6 + length s) body size (omega arith) in
    let t : ltb (length msg) multi_part ≡ true = ground arith in
    let u : ltb (length s) 1 ≡ false = ground arith in
    let v : ltb 255 (length s) ≡ false = ground arith in
    let e : packreq (name s) session msg is_push ≡ some (wire, 0) =
      unfold packreq packreq_string name_body in rw (u, v, t, made) refl in
    (
      body,
      wire,
      packrequest_one (name s) session msg is_push wire pos lt e,
      packed,
      unpackreq_string_lem s id msg (sent_session-lt session is_push lt)
          ∙ ap (λ b. some (request (name s) id msg b)) (push_flag session is_push pos),
    )

-- After a positive `int` the next session is a positive `int`: the successor, and 1 after the largest.
next_session_bounds :
    (session : ℕ)
    → 0 < session
    → session < 2 ^ 31
    → (0 < next_session session)
      × (next_session session < 2 ^ 31)
      × (next_session session ≡ session % (2 ^ 31 - 1) + 1)
unfolding next_session
next_session_bounds session pos lt = ground arith
