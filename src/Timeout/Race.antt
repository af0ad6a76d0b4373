-- ===== src/Timeout/Race.antt =====
-- timeout.go: what the client is sent in every order of the handler's calls and the deadline.
use goserver.Common.{
  arith, List, [], ◌∷◌, ◌++◌, ◌≡◌, ◌⊎◌, ℕ, Bool, true, false, if_intro, refl, inl, inr, not, ◌<◌,
  ◌≤◌, All, All-append, leb, ltb, subst, sym, ◌&&◌, ◌||◌, ◌∙◌,
}
use goserver.Text.{Str}
use goserver.Timeout.{
  TimeoutWriter, Headers, Call, new_timeout_writer, edit_header, sync_header, call, write,
  write_header, flush, expire, timeout_code, flush_call, status_call, write_call,
}

-- One step of the handler on its own writer: `Header`, `Write`, `WriteHeader` or `Flush`. What it
-- does on the writer that `Unwrap` hands out is no step here.
pub data Act : TimeoutWriter → TimeoutWriter → Type 0 where
  edits : (f : Headers → Headers) (tw : TimeoutWriter) → Act tw (edit_header f tw)
  writes : (p : Str) (tw : TimeoutWriter) → Act tw (write p tw).1
  answers : (status : ℕ) (tw : TimeoutWriter) → Act tw (write_header status tw)
  flushes : (tw : TimeoutWriter) → Act tw (flush tw)

-- Any number of steps of the handler.
pub data Acts (tw : TimeoutWriter) : TimeoutWriter → Type 0 where
  none_yet : Acts tw tw
  more : {t u : TimeoutWriter} → Acts tw t → Act t u → Acts tw u

-- Only informational answers were sent where the writer holds no header.
abbrev pub IsInformational : Call → Type 0
IsInformational (status_call status h) = (100 ≤ status) × (status < 200)
IsInformational (write_call p h) = ⊥
IsInformational (flush_call h) = ⊥

-- The calls up to the end of the race, by the state of the writer.
record IsSane (tw : TimeoutWriter) : Type 0 where
  early : tw.wrote_header ≡ false → All IsInformational tw.calls

snoc-All :
    (calls : List Call) (c : Call)
    → All IsInformational calls
    → IsInformational c
    → All IsInformational (calls ++ c ∷ [])
snoc-All calls c h k = All-append IsInformational calls (c ∷ []) h (k, tt)

write-IsSane : (p : Str) (tw : TimeoutWriter) → IsSane tw → IsSane (write p tw).1
unfolding write call sync_header
write-IsSane p tw v =
    if_intro (λ (r : Bool × TimeoutWriter). IsSane r.1) tw.timed_out _ _ (λ _. v)
      (λ _. record { early = λ h. cc })

write_header-IsSane :
    (status : ℕ) (tw : TimeoutWriter) → IsSane tw → IsSane (write_header status tw)
unfolding write_header call sync_header
write_header-IsSane status tw v =
    if_intro IsSane (leb 100 status && ltb status 200) _ _
      (λ info.
        if_intro IsSane tw.timed_out _ _ (λ _. v)
          (λ _. record { early = λ h. snoc-All tw.calls _ (v.early h) (ground (arith, info)) }))
      (λ _.
        if_intro IsSane (tw.timed_out || tw.wrote_header) _ _ (λ _. v)
          (λ _. record { early = λ h. cc }))

flush-IsSane : (tw : TimeoutWriter) → IsSane tw → IsSane (flush tw)
unfolding flush call sync_header
flush-IsSane tw v = if_intro IsSane tw.timed_out _ _ (λ _. v) (λ _. record { early = λ h. cc })

Act-IsSane : {t u : TimeoutWriter} → Act t u → IsSane t → IsSane u
unfolding edit_header
Act-IsSane (edits f tw) v = record { early = v.early }
Act-IsSane (writes p tw) v = write-IsSane p tw v
Act-IsSane (answers status tw) v = write_header-IsSane status tw v
Act-IsSane (flushes tw) v = flush-IsSane tw v

Acts-IsSane : {t u : TimeoutWriter} → Acts t u → IsSane t → IsSane u
Acts-IsSane none_yet v = v
Acts-IsSane (more r a) v = Act-IsSane a (Acts-IsSane r v)

-- Nothing more reaches the client.
abbrev pub Closed : TimeoutWriter → TimeoutWriter → Type 0
Closed t u = (u.timed_out ≡ true) × (u.calls ≡ t.calls) × (u.dst ≡ t.dst)

Act-Closed : {t u : TimeoutWriter} → Act t u → t.timed_out ≡ true → Closed t u
unfolding edit_header write write_header flush
Act-Closed (edits f tw) h = (h, refl, refl)
Act-Closed (writes p tw) h =
    if_intro (λ (r : Bool × TimeoutWriter). Closed tw r.1) tw.timed_out _ _ (λ _. (h, refl, refl))
      (λ open_still. cc)
Act-Closed (answers status tw) h =
    if_intro (Closed tw) (leb 100 status && ltb status 200) _ _
      (λ _. if_intro (Closed tw) tw.timed_out _ _ (λ _. (h, refl, refl)) (λ open_still. cc))
      (λ _.
        if_intro (Closed tw) (tw.timed_out || tw.wrote_header) _ _ (λ _. (h, refl, refl))
          (λ open_still. ground (arith, h, open_still)))
Act-Closed (flushes tw) h =
    if_intro (Closed tw) tw.timed_out _ _ (λ _. (h, refl, refl)) (λ open_still. cc)

Acts-Closed : {t u : TimeoutWriter} → Acts t u → t.timed_out ≡ true → Closed t u
Acts-Closed none_yet h = (h, refl, refl)
Acts-Closed (more r a) h =
    let before = Acts-Closed r h in
    let last = Act-Closed a before.0 in (last.0, last.1 ∙ before.1, last.2 ∙ before.2)

-- What the client has at the deadline: the handler's answer, or the page after what was informational.
abbrev pub Answered : (ℕ → Headers → List Call) → Bool → TimeoutWriter → List Call → Type 0
Answered page canceled t calls =
    ((t.wrote_header ≡ true) × (calls ≡ t.calls))
    ⊎ ((t.wrote_header ≡ false)
        × All IsInformational t.calls
        × (calls ≡ t.calls ++ page (timeout_code canceled) t.dst))

expire-Answered :
    (page : ℕ → Headers → List Call) (canceled : Bool) (t : TimeoutWriter)
    → IsSane t
    → Answered page canceled t (expire page canceled t).calls
unfolding expire
expire-Answered page canceled t v =
    if_intro (λ (x : TimeoutWriter). Answered page canceled t x.calls) (not t.wrote_header) _ _
      (λ silent. inr (ground (arith, silent), v.early (ground (arith, silent)), refl))
      (λ wrote. inl (ground (arith, wrote), refl))

expired_closed :
    (page : ℕ → Headers → List Call) (canceled : Bool) (t : TimeoutWriter)
    → (expire page canceled t).timed_out ≡ true
unfolding expire
expired_closed page canceled t =
    if_intro (λ (x : TimeoutWriter). x.timed_out ≡ true) (not t.wrote_header) _ _ (λ _. refl)
      (λ _. refl)

-- Whatever the handler calls of its own writer (Header, Write, WriteHeader and Flush) before
-- the deadline and after it, what the client is sent is fixed at the deadline: where the
-- handler had begun its answer, what it had sent until then; else what it had sent, which were
-- informational answers only, and behind them the page for the code of the timeout.
pub expire_once :
    (page : ℕ → Headers → List Call) (canceled : Bool) (dst : Headers) (t u : TimeoutWriter)
    → Acts (new_timeout_writer dst) t
    → Acts (expire page canceled t) u
    → Answered page canceled t u.calls
unfolding new_timeout_writer
expire_once page canceled dst t u before after =
    let sane = Acts-IsSane before (record { early = λ h. tt }) in
    subst (Answered page canceled t) (sym (Acts-Closed after (expired_closed page canceled t)).1)
      (expire-Answered page canceled t sane)
