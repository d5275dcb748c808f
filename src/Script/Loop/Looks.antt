-- ===== src/Script/Loop/Looks.antt =====
-- How often a round looks at the world (pkg/mcp/tools/serial_script.go).
use serial_hub.Prelude.{
  ℕ, suc, ◌≤◌, List, [], ◌∷◌, Bool, false, Option, none, some, arith, ltb, if-cases, ok, err, ◌>>=◌,
}
use serial_hub.Script.{World, ScriptFireItem, DelayedWrite}
use serial_hub.Script.Matching.{
  Plan, Progress, Abort, look, drain, script_write, timed_write_failed, delayed_write_failed,
}
use serial_hub.Script.Matching.Counts.{IsAccounted, process-looks}
use serial_hub.Script.Loop.{
  Turn, fire_timed, write_timed, fire_delayed, write_delayed, sent_timed, sent_delayed, is_due,
  is_lost, fire_time, unless_cancelled, while_connected, digest, after_process, unless_complete,
  complete, before_deadline, round, after_write,
}
use serial_hub.Script.Loop.Results.{
  IsSound, unless_cancelled-IsSound, while_connected-IsSound, digest-IsSound,
  unless_complete-IsSound,
}

-- What holds of the state if the run goes on.
abbrev pub Goes : (Progress → Type 0) → Turn → Type 0
Goes P (ok s) = P s
Goes P (err r) = Unit

abbrev After : ℕ → Progress → Type 0
After n s = n ≤ s.looks

-- Counters that agree, after at least `n` looks.
abbrev pub Known : ℕ → Progress → Type 0
Known n s = IsAccounted s × (n ≤ s.looks)

pub bind-Goes :
    (P : Progress → Type 0) (Q : Progress → Type 0) (m : Turn) (f : Progress → Turn)
    → Goes P m
    → ((s : Progress) → P s → Goes Q (f s))
    → Goes Q (m >>= f)
bind-Goes P Q (ok s) f h k = k s h
bind-Goes P Q (err r) f h k = tt

pub known : (n : ℕ) (m : Turn) → IsSound m → Goes (After n) m → Goes (Known n) m
known n (ok s) h k = (h, k)
known n (err r) h k = tt

unless_cancelled-After :
    (w : World) (plan : Plan) (n : ℕ) (s : Progress)
    → n ≤ s.looks
    → Goes (After (suc n)) (unless_cancelled w plan s)
unfolding unless_cancelled look
unless_cancelled-After w plan n s h =
    if-cases (Goes (After (suc n))) (w.cancelled s.looks) _ _ (λ c. tt) (λ c. omega arith)

while_connected-After :
    (w : World) (plan : Plan) (n : ℕ) (s : Progress)
    → n ≤ s.looks
    → Goes (After n) (while_connected w plan s)
unfolding while_connected look
while_connected-After w plan n s h =
    if-cases (Goes (After n)) (is_lost plan (look w s)) _ _ (λ c. tt) (λ c. omega arith)

after_process-After :
    (w : World) (plan : Plan) (b : Bool) (n : ℕ) (r : Progress × Option Abort)
    → n ≤ r.0.looks
    → Goes (After n) (after_process w plan b r)
after_process-After w plan b n (s, none) h = h
after_process-After w plan b n (s, some a) h = tt

drained : (w : World) (s : Progress) → IsAccounted s → IsAccounted (drain (look w s)).0
unfolding IsAccounted look
drained w s h = h

digest-After :
    (w : World) (plan : Plan) (n : ℕ) (s : Progress)
    → IsAccounted s
    → n ≤ s.looks
    → Goes (After n) (digest w plan false s)
unfolding digest look
digest-After w plan n s h l =
    let p = process-looks w plan (drain (look w s)).0 (look w s).inbox (drained w s h) in
    after_process-After w plan false n _ (omega arith)

unless_complete-After :
    (w : World) (plan : Plan) (n : ℕ) (s : Progress)
    → n ≤ s.looks
    → Goes (After n) (unless_complete w plan s)
unfolding unless_complete
unless_complete-After w plan n s h =
    if-cases (Goes (After n)) (complete plan s) _ _ (λ c. tt) (λ c. h)

before_deadline-After :
    (w : World) (plan : Plan) (n : ℕ) (s : Progress)
    → n ≤ s.looks
    → Goes (After n) (before_deadline w plan s)
unfolding before_deadline look
before_deadline-After w plan n s h =
    if-cases (Goes (After n)) (ltb plan.deadline (w.now s.looks)) _ _ (λ c. tt) (λ c. omega arith)

after_write-After :
    (plan : Plan) (done : Progress → Progress) (n : ℕ) (r : Progress × Option Abort)
    → n ≤ (done r.0).looks
    → Goes (After n) (after_write plan done r)
after_write-After plan done n (s, none) h = h
after_write-After plan done n (s, some a) h = tt

fire_timed-After :
    (w : World) (plan : Plan) (item : ScriptFireItem) (n : ℕ) (s : Progress)
    → n ≤ s.looks
    → Goes (After n) (fire_timed w plan item s)
unfolding fire_timed script_write sent_timed look
fire_timed-After w plan item n s h =
    bind-Goes (After (suc n)) (After n) (unless_cancelled w plan s) _
      (unless_cancelled-After w plan n s h)
      λ s₁ h₁.
        after_write-After plan (sent_timed w plan item) n
          (script_write w plan s₁ item.payload (timed_write_failed item.write_idx)) (omega arith)

fire_delayed-After :
    (w : World) (plan : Plan) (x : DelayedWrite) (xs : List DelayedWrite) (n : ℕ) (s : Progress)
    → n ≤ s.looks
    → Goes (After n) (fire_delayed w plan x xs s)
unfolding fire_delayed script_write look
fire_delayed-After w plan x xs n s h =
    bind-Goes (After (suc n)) (After n) (unless_cancelled w plan s) _
      (unless_cancelled-After w plan n s h)
      λ s₁ h₁.
        after_write-After plan sent_delayed n
          (script_write w plan (record s₁ { delayed = xs }) x.payload (delayed_write_failed x.rule))
          (omega arith)

write_timed-After :
    (w : World) (plan : Plan) (items : List ScriptFireItem) (n : ℕ) (s : Progress)
    → n ≤ s.looks
    → Goes (After n) (write_timed w plan items s)
unfolding write_timed look
write_timed-After w plan [] n s h = h
write_timed-After w plan (item ∷ items) n s h =
    let t = look w (look w s) in
    if-cases (Goes (After n)) (is_due w plan s (fire_time plan item)) _ _
      (λ d.
        bind-Goes (After n) (After n) (fire_timed w plan item t) _
          (fire_timed-After w plan item n t (omega arith))
          (λ u k. write_timed-After w plan items n u k))
      (λ d. omega arith)

write_delayed-After :
    (w : World) (plan : Plan) (xs : List DelayedWrite) (n : ℕ) (s : Progress)
    → n ≤ s.looks
    → Goes (After n) (write_delayed w plan xs s)
unfolding write_delayed look
write_delayed-After w plan [] n s h = h
write_delayed-After w plan (x ∷ xs) n s h =
    let t = look w (look w s) in
    if-cases (Goes (After n)) (is_due w plan s x.fire_at) _ _
      (λ d.
        bind-Goes (After n) (After n) (fire_delayed w plan x xs t) _
          (fire_delayed-After w plan x xs n t (omega arith))
          (λ u k. write_delayed-After w plan xs n u k))
      (λ d. omega arith)

-- The part of a round up to its check of the deadline.
pub to_deadline-Known :
    (w : World) (plan : Plan) (n : ℕ) (Q : Progress → Type 0) (rest : Progress → Turn)
    (s : Progress)
    → Known n s
    → ((t : Progress) → Known (suc n) t → Goes Q (rest t))
    → Goes Q (
        unless_cancelled w plan s >>= λ s₁. while_connected w plan s₁ >>= λ s₂.
        digest w plan false s₂ >>= λ s₃. unless_complete w plan s₃ >>= rest)
to_deadline-Known w plan n Q rest s (h, l) k =
    let K = Known (suc n) in
    bind-Goes K Q (unless_cancelled w plan s) _
      (known _ _ (unless_cancelled-IsSound w plan s h) (unless_cancelled-After w plan n s l))
      λ s₁ (h₁, l₁).
        bind-Goes K Q (while_connected w plan s₁) _
          (known _ _ (while_connected-IsSound w plan s₁ h₁) (while_connected-After w plan _ s₁ l₁))
          λ s₂ (h₂, l₂).
            bind-Goes K Q (digest w plan false s₂) _
              (known _ _ (digest-IsSound w plan false s₂ h₂) (digest-After w plan _ s₂ h₂ l₂))
              λ s₃ (h₃, l₃).
                bind-Goes K Q (unless_complete w plan s₃) _
                  (known _ _ (unless_complete-IsSound w plan s₃ h₃)
                    (unless_complete-After w plan _ s₃ l₃))
                  k

-- A round that goes on has looked at the world.
pub round-After :
    (w : World) (plan : Plan) (n : ℕ) (s : Progress)
    → Known n s
    → Goes (After (suc n)) (round w plan s)
unfolding round
round-After w plan n s h = to_deadline-Known w plan n (After (suc n)) _ s h λ t (k, l).
    bind-Goes (After (suc n)) (After (suc n)) (before_deadline w plan t) _
      (before_deadline-After w plan _ t l)
      λ t₁ l₁.
        bind-Goes (After (suc n)) (After (suc n)) (write_timed w plan _ t₁) _
          (write_timed-After w plan _ _ t₁ l₁)
          λ t₂ l₂.
            bind-Goes (After (suc n)) (After (suc n)) (write_delayed w plan t₂.delayed t₂) _
              (write_delayed-After w plan t₂.delayed _ t₂ l₂)
              λ t₃ l₃. unless_complete-After w plan _ t₃ l₃
