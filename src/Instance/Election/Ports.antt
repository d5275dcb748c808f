-- ===== src/Instance/Election/Ports.antt =====
-- The ports of a master (cmd/serialhub/serve.go).
use serial_hub.Instance.Election.{
  Listen, ListenError, after_listen, try_ports, resolve_listen_port, free, in_use, broken,
  listen_failed, ports_occupied,
}
use mathlib.Core.Path.{subst}
use serial_hub.Prelude.{ℕ, zero, suc, ◌+◌, ◌<◌, ◌≡◌, refl, ap, ◌∙◌, arith, Result, ok, err}

-- All ports from `n` on, so many of them, are in use.
abbrev pub AllInUse : (ℕ → Listen) → ℕ → ℕ → Type 0
AllInUse listen n zero = Unit
AllInUse listen n (suc k) = (listen n ≡ in_use) × AllInUse listen (n + 1) k

-- The search from port `n` on: after so many ports in use it came to one that is free or that cannot
-- be listened on for another reason, or all were in use.
pub data Search (listen : ℕ → Listen) (n tries : ℕ) (r : Result ListenError ℕ) : Type 0 where
  found :
      (k : ℕ)
      → k < tries
      → AllInUse listen n k
      → listen (n + k) ≡ free
      → r ≡ ok (n + k)
      → Search listen n tries r
  stopped :
      (k : ℕ)
      → k < tries
      → AllInUse listen n k
      → listen (n + k) ≡ broken
      → r ≡ err (listen_failed (n + k))
      → Search listen n tries r
  exhausted : AllInUse listen n tries → r ≡ err ports_occupied → Search listen n tries r

Search-later :
    (listen : ℕ → Listen) (n tries : ℕ) (r : Result ListenError ℕ)
    → listen n ≡ in_use
    → Search listen (n + 1) tries r
    → Search listen n (suc tries) r
Search-later listen n tries r h (found k less used at e) =
    let shift : n + 1 + k ≡ n + suc k = omega arith in
    found (suc k) (omega arith) (h, used) (subst (λ m. listen m ≡ free) shift at) (e ∙ ap ok shift)
Search-later listen n tries r h (stopped k less used at e) =
    let shift : n + 1 + k ≡ n + suc k = omega arith in
    stopped (suc k) (omega arith) (h, used) (subst (λ m. listen m ≡ broken) shift at)
      (e ∙ ap (λ m. err (listen_failed m)) shift)
Search-later listen n tries r h (exhausted used e) = exhausted (h, used) e

after_listen-Search :
    (listen : ℕ → Listen) (n tries : ℕ) (rest : Result ListenError ℕ) (l : Listen)
    → listen n ≡ l
    → Search listen (n + 1) tries rest
    → Search listen n (suc tries) (after_listen n rest l)
after_listen-Search listen n tries rest free h s =
    let shift : n ≡ n + 0 = omega arith in
    found 0 (omega arith) tt (subst (λ m. listen m ≡ free) shift h) (ap ok shift)
after_listen-Search listen n tries rest in_use h s = Search-later listen n tries rest h s
after_listen-Search listen n tries rest broken h s =
    let shift : n ≡ n + 0 = omega arith in
    stopped 0 (omega arith) tt (subst (λ m. listen m ≡ broken) shift h)
      (ap (λ m. err (listen_failed m)) shift)

try_ports-Search :
    (listen : ℕ → Listen) (tries n : ℕ) → Search listen n tries (try_ports listen tries n)
unfolding try_ports
try_ports-Search listen zero n = exhausted tt refl
try_ports-Search listen (suc tries) n =
    after_listen-Search listen n tries (try_ports listen tries (n + 1)) (listen n) refl
      (try_ports-Search listen tries (n + 1))

-- The master listens on the first port that is not in use, of the one asked for and the ten after
-- it. It fails if that one cannot be listened on, or if all eleven are in use.
pub resolve_listen_port-Search :
    (listen : ℕ → Listen) (start_port : ℕ)
    → Search listen start_port 11 (resolve_listen_port listen start_port)
unfolding resolve_listen_port
resolve_listen_port-Search listen start_port = try_ports-Search listen 11 start_port
