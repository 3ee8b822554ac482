-- ===== src/Http/Sent.antt =====
-- raft/http/peer.go: where a message goes.
use yyckv.Base.{
  ℕ, ◌≤◌, ◌<◌, ◌≡◌, ◌⊎◌, inl, inr, refl, true, false, List, [], ◌∷◌, ◌++◌, length, length-append,
  arith, ◌≢◌, subst, sym, ap, if◌then◌else◌, ltb, Bool-cases, ◌∙◌,
}
use yyckv.Pb.{Message, MessageType, msg_app, msg_snap}
use yyckv.Http.{
  Peer, Channel, to_msg_app_v2, to_writer, to_pipeline, stream_buf_size, pipeline_buf_size,
  is_msg_app, is_msg_snap, pick, send_on, send,
}

-- No channel holds more than its buffer.
abbrev pub IsWithin : Peer → Type 0
IsWithin p =
    (length p.msg_app_v2_writer.msgc ≤ stream_buf_size)
    × (length p.writer.msgc ≤ stream_buf_size)
    × (length p.pipeline ≤ pipeline_buf_size)

-- What `c` holds.
abbrev pub queue : Channel → Peer → List Message
queue to_msg_app_v2 p = p.msg_app_v2_writer.msgc
queue to_writer p = p.writer.msgc
queue to_pipeline p = p.pipeline

-- The size of the buffer of `c`.
abbrev pub buffer : Channel → ℕ
buffer to_msg_app_v2 = stream_buf_size
buffer to_writer = stream_buf_size
buffer to_pipeline = pipeline_buf_size

-- Every channel but `c` holds what it held.
abbrev pub Others : Channel → Peer → Peer → Type 0
Others c p q = (d : Channel) → d ≢ c → queue d q ≡ queue d p

-- The message is put at the end of `c`, if there is room, and otherwise its destination is reported.
abbrev pub Enters : Channel → Peer → Message → Peer → Type 0
Enters c p m q =
    Others c p q
    × ((length (queue c p) < buffer c)
          × (queue c q ≡ queue c p ++ (m ∷ []))
          × (q.reported ≡ p.reported)
        ⊎ (buffer c ≤ length (queue c p))
          × (queue c q ≡ queue c p)
          × (q.reported ≡ p.reported ++ (m.to ∷ [])))

abbrev Sends : Channel → Peer → Message → Peer → Type 0
Sends c p m q = Enters c p m q × (IsWithin p → IsWithin q)

send_on-Sends : (c : Channel) (p : Peer) (m : Message) → Sends c p m (send_on c p m)
unfolding send_on
send_on-Sends to_msg_app_v2 p m =
    let n = length-append p.msg_app_v2_writer.msgc (m ∷ []) in
    elim (Bool-cases (ltb (length p.msg_app_v2_writer.msgc) stream_buf_size)) [
      | inl free ↦
          rw (send_on, free)
            (
              (
                elim [
                  | to_msg_app_v2 ↦ λ o. absurd (o refl)
                  | to_writer ↦ λ o. refl
                  | to_pipeline ↦ λ o. refl
                ],
                inl (ground (arith, free), refl, refl),
              ),
              λ w. ground (arith, free, w, n),
            )
      | inr full ↦
          rw (send_on, full)
            (
              (
                elim [
                  | to_msg_app_v2 ↦ λ o. absurd (o refl)
                  | to_writer ↦ λ o. refl
                  | to_pipeline ↦ λ o. refl
                ],
                inr (ground (arith, full), refl, refl),
              ),
              λ w. w,
            )
    ]
send_on-Sends to_writer p m =
    let n = length-append p.writer.msgc (m ∷ []) in
    elim (Bool-cases (ltb (length p.writer.msgc) stream_buf_size)) [
      | inl free ↦
          rw (send_on, free)
            (
              (
                elim [
                  | to_msg_app_v2 ↦ λ o. refl
                  | to_writer ↦ λ o. absurd (o refl)
                  | to_pipeline ↦ λ o. refl
                ],
                inl (ground (arith, free), refl, refl),
              ),
              λ w. ground (arith, free, w, n),
            )
      | inr full ↦
          rw (send_on, full)
            (
              (
                elim [
                  | to_msg_app_v2 ↦ λ o. refl
                  | to_writer ↦ λ o. absurd (o refl)
                  | to_pipeline ↦ λ o. refl
                ],
                inr (ground (arith, full), refl, refl),
              ),
              λ w. w,
            )
    ]
send_on-Sends to_pipeline p m =
    let n = length-append p.pipeline (m ∷ []) in
    elim (Bool-cases (ltb (length p.pipeline) pipeline_buf_size)) [
      | inl free ↦
          rw (send_on, free)
            (
              (
                elim [
                  | to_msg_app_v2 ↦ λ o. refl
                  | to_writer ↦ λ o. refl
                  | to_pipeline ↦ λ o. absurd (o refl)
                ],
                inl (ground (arith, free), refl, refl),
              ),
              λ w. ground (arith, free, w, n),
            )
      | inr full ↦
          rw (send_on, full)
            (
              (
                elim [
                  | to_msg_app_v2 ↦ λ o. refl
                  | to_writer ↦ λ o. refl
                  | to_pipeline ↦ λ o. absurd (o refl)
                ],
                inr (ground (arith, full), refl, refl),
              ),
              λ w. w,
            )
    ]

-- An append message goes to its own stream if that works, a snapshot never to a stream, and any other
-- message to the other stream if that works; what no stream takes goes to the pipeline.
abbrev pub IsFor : Peer → Message → Channel → Type 0
IsFor p m to_msg_app_v2 = (p.msg_app_v2_writer.working ≡ true) × (m.typ ≡ msg_app)
IsFor p m to_writer =
    (p.writer.working ≡ true)
    × (m.typ ≢ msg_snap)
    × (¬ ((p.msg_app_v2_writer.working ≡ true) × (m.typ ≡ msg_app)))
IsFor p m to_pipeline =
    (m.typ ≡ msg_snap)
    ⊎ (p.writer.working ≡ false) × (¬ ((p.msg_app_v2_writer.working ≡ true) × (m.typ ≡ msg_app)))

is_msg_app_eq : (t : MessageType) → is_msg_app t ≡ true → t ≡ msg_app
is_msg_app_eq msg_app h = refl
is_msg_app_eq _ h = absurd (ground (arith, h))

is_msg_snap_eq : (t : MessageType) → is_msg_snap t ≡ true → t ≡ msg_snap
is_msg_snap_eq msg_snap h = refl
is_msg_snap_eq _ h = absurd (ground (arith, h))

-- A test that fails excludes what it tests for.
not_app : (t : MessageType) → is_msg_app t ≡ false → t ≢ msg_app
not_app t h e = absurd (ground (arith, sym h ∙ ap is_msg_app e))

not_snap : (t : MessageType) → is_msg_snap t ≡ false → t ≢ msg_snap
not_snap t h e = absurd (ground (arith, sym h ∙ ap is_msg_snap e))

pick-IsFor : (p : Peer) (m : Message) → IsFor p m (pick p m)
unfolding pick
pick-IsFor p m =
    let at : (c : Channel) → pick p m ≡ c → IsFor p m c → IsFor p m (pick p m) =
      λ c e h. subst (IsFor p m) (sym e) h in
    elim (Bool-cases (is_msg_snap m.typ)) [
      | inl snap ↦ at to_pipeline (rw (pick, snap) refl) (inl (is_msg_snap_eq m.typ snap))
      | inr other ↦
          let snapless = not_snap m.typ other in
          elim (Bool-cases p.msg_app_v2_writer.working) [
            | inr off ↦
                let not = λ (h : (p.msg_app_v2_writer.working ≡ true) × (m.typ ≡ msg_app)).
                  absurd (ground (arith, sym off ∙ h.0)) in
                elim (Bool-cases p.writer.working) [
                  | inl on ↦ at to_writer (rw (pick, other, off, on) refl) (on, snapless, not)
                  | inr idle ↦ at to_pipeline (rw (pick, other, off, idle) refl) (inr (idle, not))
                ]
            | inl working ↦ elim (Bool-cases (is_msg_app m.typ)) [
              | inl app ↦
                  at to_msg_app_v2 (rw (pick, other, working, app) refl)
                    (working, is_msg_app_eq m.typ app)
              | inr no_app ↦
                  let not = λ (h : (p.msg_app_v2_writer.working ≡ true) × (m.typ ≡ msg_app)).
                    not_app m.typ no_app h.1 in
                  elim (Bool-cases p.writer.working) [
                    | inl on ↦
                        at to_writer (rw (pick, other, working, no_app, on) refl)
                          (on, snapless, not)
                    | inr idle ↦
                        at to_pipeline (rw (pick, other, working, no_app, idle) refl)
                          (inr (idle, not))
                  ]
            ]
          ]
    ]

-- What sending makes of a peer.
abbrev pub IsSent : Peer → Message → Peer → Type 0
IsSent p m q = (c : Channel) × IsFor p m c × Enters c p m q × (IsWithin p → IsWithin q)

-- A peer that is not paused puts the message at the end of one channel, or, if that is full, reports
-- the destination of the message and puts it nowhere; the other channels stay as they are. The channel
-- is the append stream for an append message if that stream works, never a stream for a snapshot, the
-- other stream for any other message if that works, and the pipeline for all else. No channel outgrows
-- its buffer.
pub send_lem : (p : Peer) (m : Message) → p.paused ≡ false → IsSent p m (send p m)
unfolding send
send_lem p m running =
    let s = send_on-Sends (pick p m) p m in
    subst (IsSent p m) (sym (ap (λ b. if b then p else send_on (pick p m) p m) running))
      (pick p m, pick-IsFor p m, s.0, s.1)
