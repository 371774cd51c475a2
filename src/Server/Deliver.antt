-- ===== src/Server/Deliver.antt =====
-- skynet/skynet-src/skynet_server.c: what sending a message to a live service does.
use skynet_athena.Base.Bits.{bit_and_low, bit_or_low_shifted}
use skynet_athena.Server.{
  Context, Node, context_grab, context_push, context_release, deliver, filter_args, handle_of,
  isremote, message_size, message_type, newsession, push_step, send, sent, set_context,
  tag_allocsession, tag_dontcopy, with_handle,
}
use skynet_athena.Handle.{grab}
use skynet_athena.Mq.{Message, MessageQueue, push}
use skynet_athena.Mq.Refine.{Holds, length-Holds, push-Holds}
use skynet_athena.Mq.World.{IsScheduled, mq_push-IsScheduled}
use skynet_athena.Base.{
  Bool-cases, List, [], ap, arith, bit_and, bit_or, false, if◌then◌else◌, inl, inr, leb, length,
  ltb, none, not, refl, some, subst, suc, sym, true, update, update_ne, update_self, ℕ, ℕ_discrete,
  ◌%◌, ◌&&◌, ◌*◌, ◌++◌, ◌+◌, ◌-◌, ◌<◌, ◌==◌, ◌^◌, ◌∙◌, ◌∷◌, ◌≡◌, ◌≢◌,
}

-- The handle finds the context, which someone holds.
pub record IsLive (node : Node) (handle c : ℕ) (ctx : Context) : Type 0 where
  pub found : grab (handle_of node) node.handles handle ≡ some c
  pub there : node.contexts c ≡ some ctx
  pub counted : 0 < ctx.ref

-- A message to a live handle, in a scheduled world, where the queue of the service holds less than
-- 2^30 - 1 messages: it is appended to that queue, which is then marked; the queue goes to the end of
-- the global list if it was not marked before, and the list stays if it was; the world stays
-- scheduled, and every context, its reference count included, and the count of contexts are what they
-- were.
pub context_push-Holds :
    (node : Node) (handle c : ℕ) (ctx : Context) (m : Message) (ms : List Message) (xs : List ℕ)
    → IsLive node handle c ctx
    → IsScheduled node.world xs
    → Holds (node.world.queues ctx.queue) ms
    → suc (length ms) < 2 ^ 30
    → (node' : Node) × (ys : List ℕ) × (context_push node handle m ≡ some (true, node'))
      × IsScheduled node'.world ys
      × ((node.world.queues ctx.queue).in_global ≡ 0 → ys ≡ xs ++ (ctx.queue ∷ []))
      × ((node.world.queues ctx.queue).in_global ≢ 0 → ys ≡ xs)
      × Holds (node'.world.queues ctx.queue) (ms ++ (m ∷ []))
      × ((node'.world.queues ctx.queue).in_global ≢ 0)
      × ((i : ℕ) → node'.contexts i ≡ node.contexts i)
      × (node'.total ≡ node.total)
context_push-Holds node handle c ctx m ms xs live s h fits =
    let (w, ys, e, s', woken, busy, marked, queues) =
      mq_push-IsScheduled node.world xs ctx.queue m s (omega (arith, length-Holds ms h)) in
    let held = set_context node c (some (record ctx { ref = ctx.ref + 1 })) in
    let pushed = record held { world = w } in
    let final = set_context pushed c (some (record ctx { ref = ctx.ref + 1 - 1 })) in
    let grabbed : context_grab node c ≡ some held =
      unfold context_grab in rw (live.there, context_grab) refl in
    let stepped : push_step m held c ctx ≡ some pushed = unfold push_step in rw e refl in
    let more : (ctx.ref + 1 - 1 == 0) ≡ false = ground (arith, live.counted) in
    let here : pushed.contexts c ≡ some (record ctx { ref = ctx.ref + 1 }) =
      update_self node.contexts c (some (record ctx { ref = ctx.ref + 1 })) in
    let released : context_release pushed c ≡ some final =
      unfold context_release in rw (here, context_release) (rw more refl) in
    let queue : w.queues ctx.queue ≡ (push (node.world.queues ctx.queue) m).0 =
      ap (λ (f : ℕ → MessageQueue). f ctx.queue) queues
      ∙ update_self node.world.queues ctx.queue (push (node.world.queues ctx.queue) m).0 in
    (
      final,
      ys,
      (unfold context_push with_handle in
          rw (live.found, with_handle)
            (rw (live.there, with_handle)
              (rw (grabbed, with_handle) (rw (stepped, with_handle) (rw released refl))))),
      s',
      woken,
      busy,
      subst (λ (q : MessageQueue). Holds q (ms ++ (m ∷ []))) (sym queue) (push-Holds ms m h fits),
      marked,
      λ i. same_contexts i,
      refl,
    )
  where
    same_contexts :
        (i : ℕ)
        → update
            (update node.contexts c (some (record ctx { ref = ctx.ref + 1 })))
            c
            (some (record ctx { ref = ctx.ref + 1 - 1 }))
            i
          ≡ node.contexts i
    same_contexts i = elim (ℕ_discrete i c) [
      | yes e ↦
          let kept : record ctx { ref = ctx.ref + 1 - 1 } ≡ ctx =
            ap (λ (r : ℕ). record ctx { ref = r }) (omega arith) in
          rw e (
            update_self (update node.contexts c (some (record ctx { ref = ctx.ref + 1 }))) c
              (some (record ctx { ref = ctx.ref + 1 - 1 }))
            ∙ ap some kept
            ∙ sym live.there)
      | no ne ↦
          update_ne (update node.contexts c (some (record ctx { ref = ctx.ref + 1 }))) c i
            (some (record ctx { ref = ctx.ref + 1 - 1 })) ne
          ∙ update_ne node.contexts c i (some (record ctx { ref = ctx.ref + 1 })) ne
    ]

-- A message to a handle that is not live is refused, and nothing changes.
pub context_push_dead :
    (node : Node) (handle : ℕ) (m : Message)
    → grab (handle_of node) node.handles handle ≡ none
    → context_push node handle m ≡ some (false, node)
unfolding context_push with_handle
context_push_dead node handle m e = rw (e, with_handle) refl

-- A new session is the number after the last one, or 1 where that is no positive `int`; so it is
-- always a positive `int`, and the context keeps it.
pub newsession_bounds :
    (ctx : Context)
    → ctx.session_id < 2 ^ 32
    → (0 < (newsession ctx).0)
      × ((newsession ctx).0 < 2 ^ 31)
      × ((newsession ctx).1.session_id ≡ (newsession ctx).0)
      × ((newsession ctx).0 ≡ (if ltb ctx.session_id (2 ^ 31 - 1) then ctx.session_id + 1 else 1))
unfolding newsession
newsession_bounds ctx h = ground arith

filter_args-sz :
    (ctx ctx' : Context) (type session pointer sz copy session' pointer' sz' : ℕ)
    → filter_args ctx type session pointer sz copy ≡ some (ctx', session', pointer', sz')
    → sz' ≡ bit_or sz (bit_and type 0xff * 2 ^ 56)
filter_args-sz ctx ctx' type session pointer sz copy session' pointer' sz' e =
    elim (Bool-cases (not (bit_and type tag_allocsession == 0))) [
      | inr plain ↦
          let f : filter_args ctx type session pointer sz copy
              ≡ some (
                ctx,
                session,
                if (bit_and type tag_dontcopy == 0) && not (pointer == 0) then copy else pointer,
                bit_or sz (bit_and type 0xff * 2 ^ 56),
              ) =
            unfold filter_args in rw plain refl in
          cc (sym f ∙ e)
      | inl alloc ↦ elim (Bool-cases (session == 0)) [
        | inl zero' ↦
            let f : filter_args ctx type session pointer sz copy
                ≡ some (
                  (newsession ctx).1,
                  (newsession ctx).0,
                  if (bit_and type tag_dontcopy == 0) && not (pointer == 0) then copy else pointer,
                  bit_or sz (bit_and type 0xff * 2 ^ 56),
                ) =
              unfold filter_args in rw (alloc, zero') refl in
            cc (sym f ∙ e)
        | inr taken ↦
            let f : filter_args ctx type session pointer sz copy ≡ none =
              unfold filter_args in rw (alloc, taken) refl in
            cc (sym f ∙ e)
      ]
    ]

-- The size word that `_filter_args` makes of a size below 2^56 and a type gives back the low byte of
-- the type and the size when the message is dispatched.
pub filter_args-message :
    (ctx ctx' : Context) (type session pointer sz copy session' pointer' sz' source : ℕ)
    → sz < 2 ^ 56
    → filter_args ctx type session pointer sz copy ≡ some (ctx', session', pointer', sz')
    → let m : Message = record {
      source = source;
      session = session';
      data_ptr = pointer';
      sz = sz';
    } in
      (message_type m ≡ type % 2 ^ 8) × (message_size m ≡ sz)
unfolding message_type message_size
filter_args-message ctx ctx' type session pointer sz copy session' pointer' sz' source small e =
    let word : sz' ≡ type % 2 ^ 8 * 2 ^ 56 + sz =
      filter_args-sz ctx ctx' type session pointer sz copy session' pointer' sz' e
      ∙ rw (bit_and_low 8 type) (bit_or_low_shifted 56 (type % 2 ^ 8) sz small) in
    (omega (arith, word), omega (arith, word))

-- From a live context, a message of less than 2^56 bytes with a session of its own goes to a live
-- handle of this node whose queue holds less than 2^30 - 1 messages: `skynet_send` answers the
-- session, nothing goes to the harbor, and the message is last in the queue of the service, with the
-- sender where no source is given, the session, the low byte of the type, the size, and as its data
-- the copy, or the pointer itself where that is NULL or the type has the mark against copying. The
-- queue goes to the end of the global list if it was not marked.
pub send-Holds :
    (node : Node) (c source destination type session pointer sz copy d : ℕ) (ctx dest : Context)
    (ms : List Message) (xs : List ℕ)
    → node.contexts c ≡ some ctx
    → sz < 2 ^ 56
    → bit_and type tag_allocsession ≡ 0
    → destination ≢ 0
    → isremote node destination ≡ false
    → IsLive (set_context node c (some ctx)) destination d dest
    → IsScheduled node.world xs
    → Holds (node.world.queues dest.queue) ms
    → suc (length ms) < 2 ^ 30
    → (node' : Node) × (m : Message) × (ys : List ℕ) × (send node c source destination type session
          pointer sz copy
        ≡ some (sent session, none, node'))
      × IsScheduled node'.world ys
      × ((node.world.queues dest.queue).in_global ≡ 0 → ys ≡ xs ++ (dest.queue ∷ []))
      × ((node.world.queues dest.queue).in_global ≢ 0 → ys ≡ xs)
      × Holds (node'.world.queues dest.queue) (ms ++ (m ∷ []))
      × (m.source ≡ (if source == 0 then ctx.handle else source))
      × (m.session ≡ session)
      × (bit_and type tag_dontcopy ≡ 0 → pointer ≢ 0 → m.data_ptr ≡ copy)
      × (bit_and type tag_dontcopy ≢ 0 → m.data_ptr ≡ pointer)
      × (pointer ≡ 0 → m.data_ptr ≡ 0)
      × (message_type m ≡ type % 2 ^ 8)
      × (message_size m ≡ sz)
send-Holds node c source destination type session pointer sz copy d ctx dest ms xs there small plain
      nonzero here live s h room =
    let pointer' : ℕ =
      if (bit_and type tag_dontcopy == 0) && not (pointer == 0) then copy else pointer in
    let sz' = bit_or sz (bit_and type 0xff * 2 ^ 56) in
    let p : not (bit_and type tag_allocsession == 0) ≡ false = ground (arith, plain) in
    let filtered : filter_args ctx type session pointer sz copy
        ≡ some (ctx, session, pointer', sz') =
      unfold filter_args in rw p refl in
    let from : ℕ = if source == 0 then ctx.handle else source in
    let m : Message = record { source = from; session = session; data_ptr = pointer'; sz = sz' } in
    let start = set_context node c (some ctx) in
    let (node', ys, e, s', woken, busy, holds, marked, unchanged, kept) =
      context_push-Holds start destination d dest m ms xs live s h room in
    let fits : leb (2 ^ 56) sz ≡ false = ground arith in
    let z : (destination == 0) ≡ false = ground arith in
    let near : isremote start destination ≡ false = unfold isremote in here in
    let delivered : deliver start from destination session pointer' sz'
        ≡ some (sent session, none, node') =
      unfold deliver in rw (z, near) (rw e refl) in
    let (t, size) =
      filter_args-message ctx ctx type session pointer sz copy session pointer' sz' from small
        filtered in
    (
      node',
      m,
      ys,
      (unfold send in rw (there, send) (rw fits (rw (filtered, send) delivered))),
      s',
      woken,
      busy,
      holds,
      refl,
      refl,
      (λ p' ne. ground arith),
      (λ ne. ground arith),
      (λ z'. ground arith),
      t,
      size,
    )
