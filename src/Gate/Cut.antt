-- ===== src/Gate/Cut.antt =====
-- skynet/service-src/service_gate.c: a stream of any length, cut into messages of the socket in any
-- way.
use mathlib.Core.List.{map-append}
use skynet_athena.Base.{
  List, Option, [], ap, append-nil, append_assoc, arith, map, some, subst, sym, ℕ, ◌++◌, ◌+◌, ◌∙◌,
  ◌∷◌, ◌≡◌,
}
use skynet_athena.DataBuffer.{DataBuffer, MessagePool, push}
use skynet_athena.DataBuffer.Read.{flatten}
use skynet_athena.Gate.{Connection, Gate, dispatch_message, ◌>>=◌}
use skynet_athena.Gate.Frames.{
  packages, packages-append, packages-frames, packages_settled, then_behind,
}
use skynet_athena.Gate.Run.{IsWired, buffered, loop_lem, package_of, sending}
use skynet_athena.Gate.Stream.{IsBytes, IsStream, IsStream-bound, push-IsStream}

-- `dispatch_message` for one message of the socket after the other.
pub receive : (ℕ → List ℕ) → ℕ → List (List ℕ) → Connection → Gate → Option (Connection × Gate)
receive text id [] c g = some (c, g)
receive text id (bytes ∷ more) c g =
    dispatch_message text id bytes c g >>= λ ((c', g') : Connection × Gate).
    receive text id more c' g'

abbrev pub AllBytes : List (List ℕ) → Type 0
AllBytes [] = Unit
AllBytes (b ∷ bs) = IsBytes b × AllBytes bs

module _ (text : ℕ → List ℕ) (id fd : ℕ) where
  -- The packages of a stream have gone out, and the buffer holds what is behind them.
  abbrev pub Sent : Connection → Gate → List (List ℕ) × List ℕ → Option (Connection × Gate) → Type 0
  Sent c g b o =
      (db : DataBuffer) × (mp : MessagePool) × (o
        ≡ some (buffered c db, sending g mp (map (package_of text fd c g) b.0)))
      × IsStream db b.1

  dispatch_message_lem :
      (s bytes : List ℕ) (c : Connection) (g : Gate)
      → IsWired fd c g
      → IsStream c.buffer s
      → IsBytes bytes
      → Sent c g (packages (s ++ bytes)) (dispatch_message text id bytes c g)
  unfolding dispatch_message
  dispatch_message_lem s bytes c g w i b =
      let (db, mp) = push c.buffer g.mp bytes in
      let i' = push-IsStream c.buffer g.mp s bytes i b in
      let enough = IsStream-bound db (s ++ bytes) i' in
      let (db', mp', e, i'') =
        loop_lem text id fd (db.size + 4) (s ++ bytes) (buffered c db) (record g { mp = mp }) w i'
          (omega (arith, enough)) in
      let p = packages-frames (db.size + 4) (s ++ bytes) (omega (arith, enough)) in
      subst (λ q. Sent c g q (dispatch_message text id bytes c g)) p (db', mp', e, i'')

  -- On a gate with headers of two bytes (`S`), for a socket with somebody to forward to, from a buffer
  -- whose bytes so far are no complete package, empty packages aside: whatever the cuts between the messages, the gate runs to the end, it sends exactly the packages
  -- of the whole stream but the empty ones, each once, whole and in order, with the sender, receiver, type and session
  -- of the connection, and the buffer holds what is behind the last one.
  pub receive_lem :
      (s : List ℕ) (messages : List (List ℕ)) (c : Connection) (g : Gate)
      → IsWired fd c g
      → IsStream c.buffer s
      → packages s ≡ ([], s)
      → AllBytes messages
      → Sent c g (packages (s ++ flatten messages)) (receive text id messages c g)
  unfolding receive
  receive_lem s [] c g w i settled b =
      let p : packages (s ++ []) ≡ ([], s) = ap packages (append-nil s) ∙ settled in
      subst (λ q. Sent c g q (some (c, g))) (sym p)
        (c.buffer, g.mp, ap (λ fs. some (c, record g { sent = fs })) (sym (append-nil g.sent)), i)
  receive_lem s (m ∷ ms) c g w i settled (b, bs) =
      let (db, mp, e, i') = dispatch_message_lem s m c g w i b in
      let s' = (packages (s ++ m)).1 in
      let (db', mp', e', i'') =
        receive_lem s' ms (buffered c db)
          (sending g mp (map (package_of text fd c g) (packages (s ++ m)).0)) w i'
          (packages_settled (s ++ m)) bs in
      let p : packages (s ++ (m ++ flatten ms))
          ≡ then_behind (packages (s ++ m)).0 (packages (s' ++ flatten ms)) =
        ap packages (sym (append_assoc s m (flatten ms))) ∙ packages-append (s ++ m) (flatten ms) in
      let pkg = package_of text fd c g in
      let first = (packages (s ++ m)).0 in
      let later = (packages (s' ++ flatten ms)).0 in
      subst (λ q. Sent c g q (receive text id (m ∷ ms) c g)) (sym p)
        (
          db',
          mp',
          ap (λ o. o >>= λ ((c', g') : Connection × Gate). receive text id ms c' g') e
              ∙ e'
              ∙ ap (λ fs. some (buffered c db', record g { mp = mp'; sent = fs }))
                  (append_assoc g.sent (map pkg first) (map pkg later)
                    ∙ ap (◌++◌ g.sent) (sym (map-append pkg first later))),
          i'',
        )
