-- ===== src/Tests/Proxies.antt =====
-- pkg/mcp/proxy.go on concrete input.
use serial_hub.Proxy.{
  RpcMessage, Decoder, new_session, track, StdioHandoff, Proxy, no_handoff, snapshot_handoff,
  sent_first, start, lost, ProxyEvent, up, down, step, run, finish, request, response, gone, other,
  writing, replays, writes_master, healthy, client_says, client_fails, master_says, cancels,
  writes_client,
}
use serial_hub.Prelude.{◌≡◌, refl, true, false, none, some, List, [], ◌∷◌, ◌++◌, codes, bytes_eq}
use serial_hub.Instance.Election.{stdio_closed}
use serial_hub.Proxy.Sessions.{Relay, session, no_more, sessions_conserve, track_all}
use serial_hub.Proxy.Downlink.{IsBehind, run_downlink}
use serial_hub.Proxy.Results.{gone_wins, at_write}

-- Parameters that all decode.
abbrev decoder : Decoder
decoder = record {
  initialize = λ params. some params;
  initialized = λ params. some params;
  set_level = λ params. some params;
}

abbrev hello : RpcMessage
hello = request (codes "initialize") (codes "a")

abbrev call : RpcMessage
call = request (codes "tools/call") (codes "b")

-- The master dies under the second message, and the answer to the first gets stuck.
abbrev broken_session : List ProxyEvent
broken_session =
    client_says hello
    ∷ writes_master true
    ∷ client_says call
    ∷ writes_master false
    ∷ master_says (response 1)
    ∷ cancels
    ∷ writes_client (some other)
    ∷ []

abbrev handed : StdioHandoff
handed = record {
  state = record new_session { initialize_params = some (codes "a") };
  pending = some call;
  undelivered = some (response 1);
}

abbrev second_session : List ProxyEvent
second_session = replays true ∷ client_fails gone ∷ []

broken_session-handed : snapshot_handoff (run decoder (start no_handoff) broken_session) ≡ handed
unfolding run step up down track start bytes_eq
broken_session-handed = refl

two_sessions :
    Relay decoder no_handoff
      ((run decoder (start no_handoff) broken_session).from_client
        ++ (run decoder (start handed) second_session).from_client
        ++ [])
      ((run decoder (start no_handoff) broken_session).to_master
        ++ (run decoder (start handed) second_session).to_master
        ++ [])
      (snapshot_handoff (run decoder (start handed) second_session))
unfolding run step up down track start bytes_eq
two_sessions =
    session no_handoff broken_session _ _ _ refl
      (session handed second_session [] [] _ refl (no_more _))

sessions_conserve_example :
    let left = snapshot_handoff (run decoder (start handed) second_session) in
    let read =
      (run decoder (start no_handoff) broken_session).from_client
      ++ (run decoder (start handed) second_session).from_client
      ++ [] in
    let accepted =
      (run decoder (start no_handoff) broken_session).to_master
      ++ (run decoder (start handed) second_session).to_master
      ++ [] in
    ([] ++ read ≡ accepted ++ sent_first left.pending)
    × (left.state ≡ track_all decoder new_session accepted)
sessions_conserve_example = sessions_conserve decoder two_sessions

run_downlink_example :
    let s = run decoder (start handed) (master_says (response 2) ∷ writes_client none ∷ []) in
    IsBehind s.from_master s.to_client × (s.resent ≡ response 1 ∷ [])
run_downlink_example =
    run_downlink decoder handed (master_says (response 2) ∷ writes_client none ∷ [])

abbrev answering : Proxy
answering = record (start no_handoff) { downlink = writing (response 1) }

gone_wins_example :
    finish
      (run decoder answering (writes_client (some gone) ∷ healthy false ∷ healthy false ∷ []))
      (some lost)
    ≡ (record { reason = stdio_closed; failed = false }, none)
gone_wins_example =
    gone_wins decoder answering (healthy false ∷ healthy false ∷ []) lost
      (at_write (response 1) refl)
