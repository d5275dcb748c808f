-- ===== src/Buffer/Observers.antt =====
-- Who is told of arriving data, and when (internal/buffer/buffer.go).
use serial_hub.Prelude.{
  ℕ, ◌+◌, ◌≤◌, ◌<◌, ◌≡◌, ◌^◌, refl, List, [], ◌∷◌, ◌++◌, arith, Bytes, All, ◌%◌,
}
use serial_hub.Buffer.{
  Observer, DataBuffer, notify, append, subscribe, remove_observer, unsubscribe,
}

module _ {W : Type 0} where
  -- Identifiers are given out in order, and have not wrapped around.
  abbrev pub IsFresh : DataBuffer W → Type 0
  IsFresh b =
      All (λ (o : Observer W). o.id ≤ b.next_obs_id) b.observers × (b.next_obs_id + 1 < 2 ^ 64)

  remove-append :
      (id : ℕ) (os : List (Observer W)) (fn : Bytes → ℕ → W → W)
      → All (λ (o : Observer W). o.id < id) os
      → remove_observer id (os ++ record { id = id; fn = fn } ∷ []) ≡ os
  unfolding remove_observer
  remove-append id [] fn h = ground arith
  remove-append id (o ∷ os) fn h = ground (arith, remove-append id os fn h.1)

  remove_absent :
      (id : ℕ) (os : List (Observer W))
      → All (λ (o : Observer W). o.id < id) os
      → remove_observer id os ≡ os
  unfolding remove_observer
  remove_absent id [] h = refl
  remove_absent id (o ∷ os) h = ground (arith, remove_absent id os h.1)

  All-lt :
      (n m : ℕ) (os : List (Observer W))
      → n < m
      → All (λ (o : Observer W). o.id ≤ n) os
      → All (λ (o : Observer W). o.id < m) os
  All-lt n m [] h a = tt
  All-lt n m (o ∷ os) h (p, a) = (omega arith, All-lt n m os h a)

  notify-append :
      (os ps : List (Observer W)) (chunk : Bytes) (now : ℕ) (w : W)
      → notify (os ++ ps) chunk now w ≡ notify ps chunk now (notify os chunk now w)
  unfolding notify
  notify-append [] ps chunk now w = refl
  notify-append (o ∷ os) ps chunk now w = notify-append os ps chunk now (o.fn chunk now w)

  -- While identifiers have not wrapped: a subscriber is called once for a chunk, after those
  -- before it, with the whole chunk and its time of arrival; its subscription changes nothing of
  -- what the buffer keeps; unsubscribing takes exactly it away, and doing so again changes
  -- nothing.
  pub subscribe_lem :
      (b : DataBuffer W) (fn : Bytes → ℕ → W → W) (x : ℕ) (rest : Bytes) (now : ℕ) (w : W)
      → IsFresh b
      → let (b', id) = subscribe b fn in
        ((append b' (x ∷ rest) now w).1 ≡ fn (x ∷ rest) now (append b (x ∷ rest) now w).1)
        × ((append b' (x ∷ rest) now w).0.buffer ≡ (append b (x ∷ rest) now w).0.buffer)
        × ((unsubscribe b' id).observers ≡ b.observers)
        × (unsubscribe (unsubscribe b' id) id ≡ unsubscribe b' id)
  unfolding append subscribe unsubscribe notify
  subscribe_lem b fn x rest now w (below, room) =
      let id = (b.next_obs_id + 1) % 2 ^ 64 in
      let older = All-lt b.next_obs_id id b.observers (omega arith) below in
      let gone = remove-append id b.observers fn older in
      (
        notify-append b.observers _ (x ∷ rest) now w,
        refl,
        gone,
        rw (gone, remove_absent id b.observers older),
      )
