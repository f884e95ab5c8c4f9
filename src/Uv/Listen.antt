-- ===== src/Uv/Listen.antt =====
-- The calls of `make_tcp_server` (uv_utils.cpp) on the way to a socket that listens.
use vector_engine.Common.{
  zero, suc, Option, none, some, ◌≡◌, ◌↔◌, refl, ℤ, pos, negsuc, true, false, Bytes, if◌then◌else◌,
  Bool, Bool-cases, inl, inr,
}
use vector_engine.Handle.{Handle, Owner, tcp_kind, inet, inet6}
use vector_engine.Errors.{Outcome, ok, throws, undefined, diverges, ◌>>=◌}
use vector_engine.Uv.{
  Libuv, TcpOptions, is_ipv6, check_uv, check_setsockopt, enable_reuseport, enable_nodelay,
  bind_server, init_tcp_server, listen_server, attach, make_tcp_server,
}

>>=-iff : (m k : Outcome {0} Unit) → ((m >>= λ _. k) ≡ ok tt) ↔ ((m ≡ ok tt) × (k ≡ ok tt))
>>=-iff (ok tt) k = (λ h. (refl, h), λ (_, h). h)
>>=-iff (throws e) k = (λ h. cc, λ (h, _). cc)
>>=-iff undefined k = (λ h. cc, λ (h, _). cc)
>>=-iff diverges k = (λ h. cc, λ (h, _). cc)

check_uv_iff : (uv : Libuv) (err : ℤ) (msg : Bytes) → (check_uv uv err msg ≡ ok tt) ↔ (err ≡ pos 0)
unfolding check_uv
check_uv_iff uv (pos zero) msg = (λ h. refl, λ h. refl)
check_uv_iff uv (pos (suc n)) msg = (λ h. cc, λ h. cc)
check_uv_iff uv (negsuc n) msg = (λ h. cc, λ h. cc)

check_setsockopt_iff : (err : ℤ) (msg : Bytes) → (check_setsockopt err msg ≡ ok tt) ↔ (err ≡ pos 0)
unfolding check_setsockopt
check_setsockopt_iff (pos zero) msg = (λ h. refl, λ h. refl)
check_setsockopt_iff (pos (suc n)) msg = (λ h. cc, λ h. cc)
check_setsockopt_iff (negsuc n) msg = (λ h. cc, λ h. cc)

-- The code of the conversion that `bind_server` makes.
abbrev pub address : Libuv → TcpOptions → ℤ
address uv o = if is_ipv6 o.ip then uv.ip6_addr o.ip o.port else uv.ip4_addr o.ip o.port

-- Every call on the way to a socket that listens succeeds.
pub record Listens (uv : Libuv) (o : TcpOptions) : Type 0 where
  pub socket : uv.fileno ≡ pos 0
  pub shared_port : uv.setsockopt ≡ pos 0
  pub undelayed : o.nodelay ≡ true → uv.tcp_nodelay ≡ pos 0
  pub resolved : address uv o ≡ pos 0
  pub bound : uv.tcp_bind ≡ pos 0
  pub listening : uv.listen o.backlog ≡ pos 0

two_checks_iff :
    (uv : Libuv) (e f : ℤ) (m n : Bytes)
    → ((check_uv uv e m >>= λ _. check_uv uv f n) ≡ ok tt) ↔ ((e ≡ pos 0) × (f ≡ pos 0))
two_checks_iff uv e f m n =
    let (there, back) = >>=-iff (check_uv uv e m) (check_uv uv f n) in
    (
      λ h. ((check_uv_iff uv e m).0 (there h).0, (check_uv_iff uv f n).0 (there h).1),
      λ (h, k). back ((check_uv_iff uv e m).1 h, (check_uv_iff uv f n).1 k),
    )

pub bind_server_iff :
    (uv : Libuv) (o : TcpOptions)
    → (bind_server uv o.ip o.port ≡ ok tt) ↔ ((address uv o ≡ pos 0) × (uv.tcp_bind ≡ pos 0))
unfolding bind_server
bind_server_iff uv o = elim (Bool-cases (is_ipv6 o.ip)) [
  | inl six ↦ rw six (two_checks_iff uv (uv.ip6_addr o.ip o.port) uv.tcp_bind _ _)
  | inr four ↦ rw four (two_checks_iff uv (uv.ip4_addr o.ip o.port) uv.tcp_bind _ _)
]

enable_reuseport_iff :
    (uv : Libuv) → (enable_reuseport uv ≡ ok tt) ↔ ((uv.fileno ≡ pos 0) × (uv.setsockopt ≡ pos 0))
unfolding enable_reuseport
enable_reuseport_iff uv =
    let (there, back) = >>=-iff (check_uv uv uv.fileno _) (check_setsockopt uv.setsockopt _) in
    (
      λ h. (
        (check_uv_iff uv uv.fileno _).0 (there h).0,
        (check_setsockopt_iff uv.setsockopt _).0 (there h).1,
      ),
      λ (h, k).
          back ((check_uv_iff uv uv.fileno _).1 h, (check_setsockopt_iff uv.setsockopt _).1 k),
    )

-- The option is set only when it is asked for.
nodelay_iff :
    (uv : Libuv) (wanted : Bool)
    → ((if wanted then enable_nodelay uv else ok tt) ≡ ok tt)
      ↔ (wanted ≡ true → uv.tcp_nodelay ≡ pos 0)
unfolding enable_nodelay
nodelay_iff uv true = (
  λ h _. (check_uv_iff uv uv.tcp_nodelay _).0 h,
  λ h. (check_uv_iff uv uv.tcp_nodelay _).1 (h refl),
)
nodelay_iff uv false = (λ _ h. cc, λ _. refl)

listen_server_iff : (uv : Libuv) (o : TcpOptions) → (listen_server uv o ≡ ok tt) ↔ Listens uv o
unfolding listen_server
listen_server_iff uv o =
    let (there, back) = >>=-iff (enable_reuseport uv) _ in
    let (there', back') = >>=-iff (if o.nodelay then enable_nodelay uv else ok tt) _ in
    let (there'', back'') =
      >>=-iff (bind_server uv o.ip o.port) (check_uv uv (uv.listen o.backlog) _) in
    (
      λ h. record {
        socket = ((enable_reuseport_iff uv).0 (there h).0).0;
        shared_port = ((enable_reuseport_iff uv).0 (there h).0).1;
        undelayed = (nodelay_iff uv o.nodelay).0 (there' (there h).1).0;
        resolved = ((bind_server_iff uv o).0 (there'' (there' (there h).1).1).0).0;
        bound = ((bind_server_iff uv o).0 (there'' (there' (there h).1).1).0).1;
        listening = (check_uv_iff uv (uv.listen o.backlog) _).0 (there'' (there' (there h).1).1).1;
      },
      λ l. back (
        (enable_reuseport_iff uv).1 (l.socket, l.shared_port),
        back' (
          (nodelay_iff uv o.nodelay).1 l.undelayed,
          back'' (
            (bind_server_iff uv o).1 (l.resolved, l.bound),
            (check_uv_iff uv (uv.listen o.backlog) _).1 l.listening,
          ),
        ),
      ),
    )

-- The server as it is returned.
abbrev pub server_handle : TcpOptions → Option Owner → Handle
server_handle o owner = record {
  kind = tcp_kind;
  family = (if is_ipv6 o.ip then inet6 else inet);
  user_data = owner;
}

attach-init_tcp_server :
    (o : TcpOptions) (owner : Option Owner)
    → attach (init_tcp_server (is_ipv6 o.ip)) owner ≡ ok (server_handle o owner)
unfolding attach init_tcp_server
attach-init_tcp_server o none = refl
attach-init_tcp_server o (some owner) = refl

>>=-returns : (m : Outcome {0} Unit) (h : Handle) → ((m >>= λ _. ok h) ≡ ok h) ↔ (m ≡ ok tt)
>>=-returns (ok tt) h = (λ e. refl, λ e. refl)
>>=-returns (throws x) h = (λ e. cc, λ e. cc)
>>=-returns undefined h = (λ e. cc, λ e. cc)
>>=-returns diverges h = (λ e. cc, λ e. cc)

-- `make_tcp_server` returns exactly when every call on the way succeeds; the call that sets
-- TCP_NODELAY is on it when the option is set, and the address is read as the kind it looks like.
pub make_tcp_server_iff :
    (uv : Libuv) (o : TcpOptions) (owner : Option Owner)
    → (make_tcp_server uv o owner ≡ ok (server_handle o owner)) ↔ Listens uv o
unfolding make_tcp_server
make_tcp_server_iff uv o owner =
    let (there, back) = >>=-returns (listen_server uv o) (server_handle o owner) in
    (
      λ h. (listen_server_iff uv o).0 (there (rw (attach-init_tcp_server o owner) at h)),
      λ l. rw (attach-init_tcp_server o owner) (back ((listen_server_iff uv o).1 l)),
    )
