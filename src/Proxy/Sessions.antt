-- ===== src/Proxy/Sessions.antt =====
-- What a client sends through one proxy session after the other (pkg/mcp/proxy.go).
use serial_hub.Proxy.{
  RpcMessage, SessionState, Decoder, track, StdioHandoff, Forwarder, Probe, Proxy, snapshot_handoff,
  sent_first, start, ProxyEvent, up, down, watch, step, run, replaying, reading, writing, ended,
  probing, replays, writes_master, healthy, client_says, client_fails, master_says, master_fails,
  cancels, probe_stops, writes_client,
}
use mathlib.Core.Path.{subst}
use serial_hub.Prelude.{
  ◌≡◌, refl, sym, ap, ◌∙◌, inl, inr, true, false, Option, none, some, List, [], ◌∷◌, ◌++◌,
  append-nil, append_assoc, arith, Option-cases,
}

-- What came from the client, or was pending before, and has not been accepted by the master.
abbrev open_at : Forwarder → Option RpcMessage → List RpcMessage
open_at (replaying m) pending = m ∷ []
open_at reading pending = []
open_at (writing m) pending = m ∷ []
open_at ended pending = sent_first pending

-- Until the forwarder ends, only the message to replay is pending.
abbrev IsWaiting : Forwarder → Option RpcMessage → Type 0
IsWaiting (replaying m) pending = pending ≡ some m
IsWaiting reading pending = pending ≡ none
IsWaiting (writing m) pending = pending ≡ none
IsWaiting ended pending = Unit

abbrev pub track_all : Decoder → SessionState → List RpcMessage → SessionState
track_all d s [] = s
track_all d s (m ∷ ms) = track_all d (track d s m) ms

track_all-append :
    (d : Decoder) (s : SessionState) (xs ys : List RpcMessage)
    → track_all d s (xs ++ ys) ≡ track_all d (track_all d s xs) ys
track_all-append d s [] ys = refl
track_all-append d s (x ∷ xs) ys = track_all-append d (track d s x) xs ys

track_all-snoc :
    (d : Decoder) (s : SessionState) (ms : List RpcMessage) (m : RpcMessage)
    → track_all d s (ms ++ m ∷ []) ≡ track d (track_all d s ms) m
track_all-snoc d s [] m = refl
track_all-snoc d s (x ∷ ms) m = track_all-snoc d (track d s x) ms m

module _ (d : Decoder) (old : SessionState) (first : List RpcMessage) where
  abbrev At : Forwarder → Proxy → Type 0
  At f s =
      (first ++ s.from_client ≡ s.to_master ++ open_at f s.pending)
      × IsWaiting f s.pending
      × (s.state ≡ track_all d old s.to_master)

  tracks :
      (s : Proxy) (m : RpcMessage)
      → s.state ≡ track_all d old s.to_master
      → track d s.state m ≡ track_all d old (s.to_master ++ m ∷ [])
  tracks s m h = ap (λ (x : SessionState). track d x m) h ∙ sym (track_all-snoc d old s.to_master m)

  up-At :
      (f : Forwarder) (s : Proxy) (e : ProxyEvent)
      → s.uplink ≡ f
      → At f s
      → At (up d f s e).uplink (up d f s e)
  unfolding up
  up-At (replaying m) s (replays true) h (ord, wait, t) =
      (ord ∙ sym (append-nil (s.to_master ++ m ∷ [])), refl, tracks s m t)
  up-At (replaying m) s (replays false) h (ord, wait, t) =
      (ord ∙ ap (λ p. s.to_master ++ sent_first p) (sym wait), tt, t)
  up-At reading s (client_says m) h (ord, wait, t) = (
    sym (append_assoc first s.from_client (m ∷ []))
        ∙ ap (λ (ms : List RpcMessage). ms ++ m ∷ []) (ord ∙ append-nil s.to_master),
    wait,
    t,
  )
  up-At reading s (client_fails x) h (ord, wait, t) =
      (ord ∙ ap (λ p. s.to_master ++ sent_first p) (sym wait), tt, t)
  up-At (writing m) s (writes_master true) h (ord, wait, t) =
      (ord ∙ sym (append-nil (s.to_master ++ m ∷ [])), wait, tracks s m t)
  up-At (writing m) s (writes_master false) h (ord, wait, t) = (ord, tt, t)
  up-At f s e h o = subst (λ g. At g s) (sym h) o

  -- The steps that are not of the uplink leave its part of the state.
  record Same (s s' : Proxy) : Type 0 where
    uplink : s'.uplink ≡ s.uplink
    pending : s'.pending ≡ s.pending
    state : s'.state ≡ s.state
    from_client : s'.from_client ≡ s.from_client
    to_master : s'.to_master ≡ s.to_master

  down-Same : (f : Forwarder) (s : Proxy) (e : ProxyEvent) → Same s (down f s e)
  unfolding down
  down-Same reading s (master_says m) = ground arith
  down-Same reading s master_fails = ground arith
  down-Same (writing m) s (writes_client none) = ground arith
  down-Same (writing m) s (writes_client (some x)) = ground arith
  down-Same f s e = ground arith

  watch-Same : (p : Probe) (s : Proxy) (e : ProxyEvent) → Same s (watch p s e)
  unfolding watch
  watch-Same (probing n) s (healthy true) = ground arith
  watch-Same (probing n) s (healthy false) = ground arith
  watch-Same (probing n) s probe_stops = ground arith
  watch-Same p s e = ground arith

  Same-At : (s s' : Proxy) → Same s s' → At s.uplink s → At s'.uplink s'
  Same-At s s' k o = rw (k.uplink, k.pending, k.state, k.from_client, k.to_master) o

  step-At : (s : Proxy) (e : ProxyEvent) → At s.uplink s → At (step d s e).uplink (step d s e)
  unfolding step
  step-At s cancels o = o
  step-At s (master_says m) o = Same-At s _ (down-Same s.downlink s (master_says m)) o
  step-At s master_fails o = Same-At s _ (down-Same s.downlink s master_fails) o
  step-At s (writes_client x) o = Same-At s _ (down-Same s.downlink s (writes_client x)) o
  step-At s (healthy b) o = Same-At s _ (watch-Same s.probe s (healthy b)) o
  step-At s probe_stops o = Same-At s _ (watch-Same s.probe s probe_stops) o
  step-At s e o = up-At s.uplink s e refl o

  run-At :
      (s : Proxy) (events : List ProxyEvent)
      → At s.uplink s
      → At (run d s events).uplink (run d s events)
  unfolding run
  run-At s [] o = o
  run-At s (e ∷ events) o = run-At (step d s e) events (step-At s e o)

start-At :
    (d : Decoder) (h : StdioHandoff)
    → At d h.state (sent_first h.pending) (start h).uplink (start h)
unfolding start
start-At d h = elim (Option-cases h.pending) [
  | inl e ↦ rw e (refl, refl, refl)
  | inr (m, e) ↦ rw e (refl, refl, refl)
]

-- Sessions one after the other, each with what the last one left, until their forwarders have ended:
-- what came from the client and what the masters accepted from it, in order.
pub data Relay (d : Decoder)
    : StdioHandoff → List RpcMessage → List RpcMessage → StdioHandoff → Type 0 where
  no_more : (h : StdioHandoff) → Relay d h [] [] h
  session :
      (h : StdioHandoff) (events : List ProxyEvent) (read accepted : List RpcMessage)
      (left : StdioHandoff)
      → (run d (start h) events).uplink ≡ ended
      → Relay d (snapshot_handoff (run d (start h) events)) read accepted left
      → Relay d h
          ((run d (start h) events).from_client ++ read)
          ((run d (start h) events).to_master ++ accepted)
          left

-- Over any number of sessions with any masters, whatever fails and in whatever order things happen:
-- what was pending, followed by what the client has sent, is what the masters have accepted,
-- followed by what is pending in the end. Nothing is lost, doubled or overtaken. The session state
-- handed on is that of exactly the accepted messages.
pub sessions_conserve :
    (d : Decoder) {h left : StdioHandoff} {read accepted : List RpcMessage}
    → Relay d h read accepted left
    → (sent_first h.pending ++ read ≡ accepted ++ sent_first left.pending)
      × (left.state ≡ track_all d h.state accepted)
sessions_conserve d (no_more h) = (append-nil (sent_first h.pending), refl)
sessions_conserve d (session h events read accepted left e rest) =
    let s = run d (start h) events in
    let first = sent_first h.pending in
    let start_at = start-At d h in
    let (ord, _, t) =
      subst (λ (f : Forwarder). At d h.state first f s) e
        (run-At d h.state first (start h) events start_at) in
    let (more, later) = sessions_conserve d rest in
    (
      sym (append_assoc first s.from_client read)
          ∙ ap (λ (ms : List RpcMessage). ms ++ read) ord
          ∙ append_assoc s.to_master (sent_first s.pending) read
          ∙ ap (λ (ms : List RpcMessage). s.to_master ++ ms) more
          ∙ sym (append_assoc s.to_master accepted (sent_first left.pending)),
      later
          ∙ ap (λ (x : SessionState). track_all d x accepted) t
          ∙ sym (track_all-append d h.state s.to_master accepted),
    )
