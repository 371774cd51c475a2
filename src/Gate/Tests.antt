-- ===== src/Gate/Tests.antt =====
-- Runs of the gate's stream, and its theorem at a concrete stream.
use skynet_athena.Base.{List, [], arith, inl, inr, refl, some, ℕ, ◌∷◌, ◌≡◌}
use skynet_athena.Gate.{Connection, Gate}
use skynet_athena.Gate.Cut.{Sent, receive, receive_lem}
use skynet_athena.Gate.Frames.{frames, packages}

-- The prefix that names the socket to the watchdog.
abbrev text : ℕ → List ℕ
text fd = fd ∷ 32 ∷ []

abbrev client : Connection
client = record {
  id = some 5;
  agent = 9;
  client = 4;
  remote_name = [];
  buffer = record { header = 0; offset = 0; size = 0; chunks = [] };
}

abbrev gate : Gate
gate = record {
  watchdog = 3;
  broker = 0;
  client_tag = 3;
  header_size = 2;
  mp = record { blocks = 0; free = 0 };
  sent = [];
  closed = [];
}

-- The packages 7 8 and 9, an empty one between them, and the first byte of a length.
abbrev messages : List (List ℕ)
messages = (0 ∷ 2 ∷ 7 ∷ []) ∷ (8 ∷ 0 ∷ 0 ∷ 0 ∷ []) ∷ (1 ∷ 9 ∷ 5 ∷ []) ∷ []

client_packages :
    packages (0 ∷ 2 ∷ 7 ∷ 8 ∷ 0 ∷ 0 ∷ 0 ∷ 1 ∷ 9 ∷ 5 ∷ []) ≡ ((7 ∷ 8 ∷ []) ∷ (9 ∷ []) ∷ [], 5 ∷ [])
unfolding packages frames
client_packages = refl

receive_lem_example :
    Sent text 5 5 client gate
      (packages (0 ∷ 2 ∷ 7 ∷ 8 ∷ 0 ∷ 0 ∷ 0 ∷ 1 ∷ 9 ∷ 5 ∷ []))
      (receive text 5 messages client gate)
unfolding packages frames
receive_lem_example =
    receive_lem text 5 5 [] messages client gate (omega arith, refl, refl, inr (inl (omega arith)))
      (record { inside = refl; counted = refl }, tt, inl (refl, refl)) refl
      (
        (omega arith, (omega arith, (omega arith, tt))),
        (
          (omega arith, (omega arith, (omega arith, (omega arith, tt)))),
          ((omega arith, (omega arith, (omega arith, tt))), tt),
        ),
      )
