-- ===== src/Socket/Lists.antt =====
-- skynet/skynet-src/socket_server.c: what is on the write lists of a TCP socket, and what a pass over them
-- may do.
use skynet_athena.Base.{
  Bool, In, List, Option, [], append-nil, ap₂, arith, drop, false, none, refl, some, true, ℕ, ◌&&◌,
  ◌++◌, ◌+◌, ◌∙◌, ◌∷◌, ◌≡◌, ◌≢◌, ◌⊎◌,
}
use skynet_athena.Socket.{
  Socket, WriteBuffer, force_close, invalid, is_invalid, is_null, is_reserve, is_tcp, message,
  socket_close,
}
use skynet_athena.Socket.Send.{
  Outcome, closing, failed, list_uncomplete, raise_uncomplete, send_buffer_empty,
}
use skynet_athena.Socket.Flush.{IsFresh, IsFreshTail, pending, size_of}

-- The bytes that the kernel has taken and those of the write lists, in the order of sending.
abbrev pub queued_bytes : Socket → List ℕ
queued_bytes s = s.out ++ (pending s.high ++ pending s.low)

-- The bytes that a direct write has left.
abbrev pub direct_bytes : Option (List ℕ) → ℕ → List ℕ
direct_bytes none offset = []
direct_bytes (some bytes) offset = drop offset bytes

-- Everything taken over from the senders, in the order of sending.
abbrev pub all_bytes : Socket → List ℕ
all_bytes s = s.out ++ (direct_bytes s.dw_buffer s.dw_offset ++ (pending s.high ++ pending s.low))

-- The size of what waits is kept, and no node of the low list is a user object or has been sent in
-- part.
pub record IsQueued (s : Socket) : Type 0 where
  pub counted : s.wb_size ≡ size_of s.high + size_of s.low
  pub fresh : IsFresh s.low

-- A TCP socket with a descriptor.
pub record IsOpen (s : Socket) : Type 0 where
  pub stream : is_tcp s.protocol ≡ true
  pub valid : is_invalid s.type ≡ false
  pub taken : is_reserve s.type ≡ false

-- The socket stays as it is but for its lists.
pub record Same (s s' : Socket) : Type 0 where
  pub same_type : s'.type ≡ s.type
  pub same_id : s'.id ≡ s.id
  pub same_protocol : s'.protocol ≡ s.protocol
  pub same_sending : s'.sending ≡ s.sending
  pub same_direct : s'.dw_buffer ≡ s.dw_buffer
  pub same_low : s.low ≡ [] → s'.low ≡ []

pub unchanged_lists :
    (s : Socket) (high low : List WriteBuffer) (wb_size : ℕ) (out : List ℕ) (polled : Bool)
    (warn_size : ℕ)
    → (s.low ≡ [] → low ≡ [])
    → Same s (record s {
      high = high;
      low = low;
      wb_size = wb_size;
      out = out;
      polled = polled;
      warn_size = warn_size;
    })
unchanged_lists s high low wb_size out polled warn_size keep = record {
  same_type = refl;
  same_id = refl;
  same_protocol = refl;
  same_sending = refl;
  same_direct = refl;
  same_low = keep;
}

-- A pass that closes the socket has sent a part of what there was, and all of it if no call failed.
pub record Closed (os : List Outcome) (bytes : List ℕ) (s s' : Socket) : Type 0 where
  pub shut : s'.type ≡ invalid
  pub rest : List ℕ
  pub prefix : s'.out ++ rest ≡ bytes
  pub why : In failed os ⊎ (rest ≡ [])
  pub same_id : s'.id ≡ s.id
  pub same_protocol : s'.protocol ≡ s.protocol
  pub same_sending : s'.sending ≡ s.sending

pub close_lists :
    (os : List Outcome) (bytes : List ℕ) (s : Socket) (wb_size : ℕ) (out : List ℕ) (polled : Bool)
    (rest : List ℕ)
    → out ++ rest ≡ bytes
    → In failed os ⊎ (rest ≡ [])
    → Closed os bytes s (record s {
      high = [];
      low = [];
      type = invalid;
      dw_buffer = none;
      wb_size = wb_size;
      out = out;
      polled = polled;
    })
close_lists os bytes s wb_size out polled rest e why = record {
  shut = refl;
  rest = rest;
  prefix = e;
  why = why;
  same_id = refl;
  same_protocol = refl;
  same_sending = refl;
}

-- How a pass ends for a socket with the bytes `bytes` to send: all of them are still there, or the
-- socket is closed, after an error or once all is sent.
abbrev pub Ends : List Outcome → List ℕ → Socket → Socket → Type 0
Ends os bytes s s' = ((queued_bytes s' ≡ bytes) × IsQueued s' × Same s s') ⊎ Closed os bytes s s'

pub closing_eq :
    (s : Socket)
    → is_invalid s.type ≡ false
    → is_reserve s.type ≡ false
    → closing s
      ≡ some (
        socket_close (message s),
        record s { high = []; low = []; type = invalid; dw_buffer = none },
      )
unfolding closing force_close
closing_eq s v t = rw v (rw t refl)

pub true_ne_false : true ≢ false
true_ne_false e = cc

pub null_list : {A : Type 0} (l : List A) → is_null l ≡ true → l ≡ []
null_list [] e = refl
null_list (x ∷ xs) e = cc

pub raise_eq :
    (low high : List WriteBuffer) (s : Socket)
    → high ≡ []
    → list_uncomplete low ≡ true
    → (b : WriteBuffer) × (bs : List WriteBuffer) × (low ≡ b ∷ bs)
      × (raise_uncomplete low high s ≡ some (record s { high = b ∷ []; low = bs }))
unfolding raise_uncomplete list_uncomplete
raise_eq [] high s eh u = cc
raise_eq (b ∷ bs) [] s eh u = (b, bs, refl, refl)
raise_eq (b ∷ bs) (c ∷ cs) s eh u = cc

pub whole_list : (l : List WriteBuffer) → list_uncomplete l ≡ false → IsFreshTail l → IsFresh l
unfolding list_uncomplete
whole_list [] u f = tt
whole_list (b ∷ bs) u f = ((ground arith, ground arith), f)

pub empty_both : (s : Socket) → s.high ≡ [] → s.low ≡ [] → send_buffer_empty s ≡ true
unfolding send_buffer_empty
empty_both s eh el = ap₂ (λ h l. is_null h && is_null l) eh el

pub bytes_empty : (s : Socket) → s.high ≡ [] → s.low ≡ [] → queued_bytes s ≡ s.out
bytes_empty s eh el = ap₂ (λ h l. s.out ++ (pending h ++ pending l)) eh el ∙ append-nil s.out
