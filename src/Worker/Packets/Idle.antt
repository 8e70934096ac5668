-- ===== src/Worker/Packets/Idle.antt =====
-- A worker whose client is idle, and to whose client nothing is sent.
use ocserv_ppa.Base.{
  ℕ, ◌+◌, ◌*◌, ◌/◌, ◌%◌, max, leb, ◌^◌, ◌≤◌, ◌<◌, ◌≡◌, ◌⊎◌, inl, inr, Bool, true, false, not, ◌&&◌,
  ◌||◌, List, [], ◌∷◌, Option, none, some, arith, get_or, All, refl, ◌∙◌, if◌then◌else◌, ◌==◌, ltb,
  length, Bool-cases,
}
use ocserv_ppa.Base.Int.{negsuc}
use ocserv_ppa.Bandwidth.{Timespec}
use ocserv_ppa.Worker.{Worker, Settings, UdpState, is_active, link_mtu_set, min_mtu}
use ocserv_ppa.Worker.Mtu.{disable_mtu_disc, mtu_not_ok4, mtu_not_ok6, mtu_not_ok, data_mtu_set}
use ocserv_ppa.Worker.Packets.{
  going, heard_tcp, heard_udp, is_cstp, cstp_length, Step, World, parse_data, answer_cstp,
  answer_dtls, follow_mtu, parse_cstp_data, parse_dtls_data, ac_pkt_data, ac_pkt_dpd_out, is_quiet,
}
use ocserv_ppa.Main.Stats.{reason_idle_timeout}
use ocserv_ppa.Periodic.{Net, periodic_check}
use ocserv_ppa.Periodic.Alive.{periodic_check-idle}

-- The times of the last data, and of the last check, are the same.
record SameTimes (w w' : Worker) : Type 0 where
  data_eq : w'.last_nc_msg ≡ w.last_nc_msg
  check_eq : w'.last_periodic_check ≡ w.last_periodic_check

times_refl : (w : Worker) → SameTimes w w
times_refl w = record { data_eq = refl; check_eq = refl }

times_trans : (a b c : Worker) → SameTimes a b → SameTimes b c → SameTimes a c
times_trans a b c h k = record {
  data_eq = k.data_eq ∙ h.data_eq;
  check_eq = k.check_eq ∙ h.check_eq;
}

link_mtu_set-SameTimes : (w : Worker) (mtu : ℕ) → SameTimes w (link_mtu_set w mtu).1
link_mtu_set-SameTimes w mtu = ground arith

disable_mtu_disc-SameTimes : (w : Worker) → SameTimes w (disable_mtu_disc w).1
unfolding disable_mtu_disc
disable_mtu_disc-SameTimes w =
    let same = link_mtu_set-SameTimes w w.adv_link_mtu in
    record { data_eq = same.data_eq; check_eq = same.check_eq }

-- The discovery is off, and the MTU is this one.
disabled_with-SameTimes :
    (w : Worker) (mtu : ℕ) → SameTimes w (link_mtu_set (disable_mtu_disc w).1 mtu).1
disabled_with-SameTimes w mtu =
    let w1 = (disable_mtu_disc w).1 in
    times_trans w w1 (link_mtu_set w1 mtu).1 (disable_mtu_disc-SameTimes w)
      (link_mtu_set-SameTimes w1 mtu)

mtu_not_ok4-SameTimes : (w : Worker) → SameTimes w (mtu_not_ok4 w).1
unfolding mtu_not_ok4
mtu_not_ok4-SameTimes w = elim (Bool-cases (w.last_good_mtu == min_mtu w)) [
  | inl lowest ↦
      (let same = disabled_with-SameTimes (record w { last_bad_mtu = w.link_mtu }) (min_mtu w) in
        rw lowest (record { data_eq = same.data_eq; check_eq = same.check_eq }))
  | inr higher ↦
      (let good =
          if leb w.link_mtu w.last_good_mtu
          then max ((2 * w.link_mtu % 2 ^ 32) / 3) (min_mtu w)
          else w.last_good_mtu in
        let same =
          link_mtu_set-SameTimes (record w { last_bad_mtu = w.link_mtu; last_good_mtu = good })
            good in
        rw higher (record { data_eq = same.data_eq; check_eq = same.check_eq }))
]

mtu_not_ok6-SameTimes : (pathmtu : Option ℕ) (w : Worker) → SameTimes w (mtu_not_ok6 pathmtu w).1
unfolding mtu_not_ok6
mtu_not_ok6-SameTimes none w = disabled_with-SameTimes w (min_mtu w)
mtu_not_ok6-SameTimes (some mtu) w = elim (Bool-cases (ltb mtu 1280)) [
  | inl small ↦ rw small (disabled_with-SameTimes w (min_mtu w))
  | inr large ↦ rw large (link_mtu_set-SameTimes w mtu)
]

mtu_not_ok-SameTimes : (pathmtu : Option ℕ) (w : Worker) → SameTimes w (mtu_not_ok pathmtu w).1
unfolding mtu_not_ok
mtu_not_ok-SameTimes pathmtu w =
    ground (arith, mtu_not_ok4-SameTimes w, mtu_not_ok6-SameTimes pathmtu w)

follow_mtu-SameTimes : (env : World) (w : Worker) (size : ℕ) → SameTimes w (follow_mtu env w size).1
unfolding follow_mtu data_mtu_set
follow_mtu-SameTimes env w size = ground arith

answer_dtls-SameTimes :
    (env : World) (w : Worker) (buf : List ℕ) → SameTimes w (answer_dtls env w buf).worker
unfolding answer_dtls
answer_dtls-SameTimes env w buf =
    let w1 = (follow_mtu env w (length buf)).1 in
    ground (arith, follow_mtu-SameTimes env w (length buf), mtu_not_ok-SameTimes env.pathmtu w1)

-- A packet that a client sends: on which channel, its bytes, and when it comes.
pub record Packet : Type 0 where
  pub is_dtls : Bool
  pub bytes : List ℕ
  pub time : ℕ

abbrev pub head_of : Packet → ℕ
head_of p = if p.is_dtls then get_or p.bytes 0 0 else get_or p.bytes 6 0

-- Packets with no data: keepalives, probes and the answers to them.
abbrev pub is_control : Packet → Bool
is_control p = is_quiet (head_of p) || head_of p == ac_pkt_dpd_out

abbrev pub receive : World → Packet → Worker → Step
receive env p w =
    if p.is_dtls then parse_dtls_data env w p.bytes p.time else parse_cstp_data env w p.bytes p.time

-- The worker after these packets.
unfoldable pub receive_all : World → List Packet → Worker → Worker
receive_all env [] w = w
receive_all env (p ∷ packets) w = receive_all env packets ((receive env p w).worker)

parse_data-control :
    (env : World) (w : Worker) (p : Packet)
    → is_control p ≡ true
    → SameTimes w (parse_data env w p.bytes p.time p.is_dtls).worker
unfolding parse_data answer_cstp
parse_data-control env w p control = elim (Bool-cases (is_quiet (head_of p))) [
  | inl quiet ↦ rw quiet (times_refl w)
  | inr loud ↦
      (let probe : head_of p == ac_pkt_dpd_out ≡ true = rw loud at control in
        rw loud (
          rw probe (elim (Bool-cases p.is_dtls) [
            | inl dtls ↦ rw dtls (answer_dtls-SameTimes env w p.bytes)
            | inr tcp ↦ rw tcp (times_refl w)
          ])))
]

heard_tcp-SameTimes : (now : ℕ) (s : Step) → SameTimes s.worker (heard_tcp now s).worker
heard_tcp-SameTimes now s = ground arith

heard_udp-SameTimes : (now : ℕ) (s : Step) → SameTimes s.worker (heard_udp now s).worker
heard_udp-SameTimes now s = ground arith

-- A frame of data switches the worker to TCP.
abbrev switched : Worker → List ℕ → Worker
switched w buf =
    if get_or buf 6 0 == ac_pkt_data && is_active w.udp_state
    then record w { udp_state = UdpState.inactive }
    else w

switched-SameTimes : (w : Worker) (buf : List ℕ) → SameTimes w (switched w buf)
switched-SameTimes w buf = ground arith

-- What a frame does is what parse_data does, and nothing else does anything.
parse_cstp_data-cases :
    (env : World) (w : Worker) (buf : List ℕ) (now : ℕ)
    → (parse_cstp_data env w buf now ≡ going (negsuc 0) [] w)
      ⊎ (parse_cstp_data env w buf now
          ≡ heard_tcp now (parse_data env (switched w buf) buf now false))
unfolding parse_cstp_data
parse_cstp_data-cases env w buf now = elim (Bool-cases (ltb (length buf) 8)) [
  | inl e ↦ rw e (inl refl)
  | inr e ↦ elim (Bool-cases (not (is_cstp buf))) [
    | inl f ↦ rw e (rw f (inl refl))
    | inr f ↦ elim (Bool-cases (not (length buf == 8 + cstp_length buf))) [
      | inl g ↦ rw e (rw f (rw g (inl refl)))
      | inr g ↦ rw e (rw f (rw g (inr refl)))
    ]
  ]
]

cstp-control :
    (env : World) (w : Worker) (buf : List ℕ) (now : ℕ)
    → is_control (record { is_dtls = false; bytes = buf; time = now }) ≡ true
    → SameTimes w (parse_cstp_data env w buf now).worker
cstp-control env w buf now control = elim (parse_cstp_data-cases env w buf now) [
  | inl refused ↦ rw refused (times_refl w)
  | inr frame ↦
      (let w1 = switched w buf in
        let s = parse_data env w1 buf now false in
        let p : Packet = record { is_dtls = false; bytes = buf; time = now } in
        rw frame (
          times_trans w w1 (heard_tcp now s).worker (switched-SameTimes w buf) (
            times_trans w1 s.worker (heard_tcp now s).worker (parse_data-control env w1 p control)
              (heard_tcp-SameTimes now s))))
]

dtls-control :
    (env : World) (w : Worker) (buf : List ℕ) (now : ℕ)
    → is_control (record { is_dtls = true; bytes = buf; time = now }) ≡ true
    → SameTimes w (parse_dtls_data env w buf now).worker
unfolding parse_dtls_data
dtls-control env w buf now control = elim (Bool-cases (length buf == 0)) [
  | inl short ↦ rw short (times_refl w)
  | inr long ↦
      (let s = parse_data env w buf now true in
        let p : Packet = record { is_dtls = true; bytes = buf; time = now } in
        rw long (
          times_trans w s.worker (heard_udp now s).worker (parse_data-control env w p control)
            (heard_udp-SameTimes now s)))
]

receive-control :
    (env : World) (p : Packet) (w : Worker)
    → is_control p ≡ true
    → SameTimes w (receive env p w).worker
receive-control env p w control = elim (Bool-cases p.is_dtls) [
  | inl dtls ↦ rw dtls (dtls-control env w p.bytes p.time (rw dtls at control))
  | inr tcp ↦ rw tcp (cstp-control env w p.bytes p.time (rw tcp at control))
]

receive_all-control :
    (env : World) (packets : List Packet) (w : Worker)
    → All (λ p. is_control p ≡ true) packets
    → SameTimes w (receive_all env packets w)
unfolding receive_all
receive_all-control env [] w controls = times_refl w
receive_all-control env (p ∷ packets) w (control, controls) =
    let w1 = (receive env p w).worker in
    times_trans w w1 (receive_all env packets w1) (receive-control env p w control)
      (receive_all-control env packets w1 controls)

-- Where no packet goes to the client, and it sends nothing but keepalives, probes and answers to them, on any of the
-- two channels and however many, the worker is to terminate for idleness at the first check that is due after the
-- idle timeout, counted from the last data before; a check is due 34 seconds after the last.
pub control-idle :
    (env : World) (c : Settings) (net : Net) (w : Worker) (packets : List Packet) (tnow : Timespec)
    (dpd : ℕ)
    → All (λ p. is_control p ≡ true) packets
    → 0 < c.idle_timeout
    → w.last_nc_msg + c.idle_timeout < tnow.tv_sec
    → w.last_periodic_check + 34 ≤ tnow.tv_sec
    → let (sent, w', over) = periodic_check c net tnow dpd (receive_all env packets w) in
      (w'.terminate ≡ some reason_idle_timeout) × (sent ≡ [])
control-idle env c net w packets tnow dpd controls on idle due =
    let w' = receive_all env packets w in
    let same = receive_all-control env packets w controls in
    let (ended, silent, stays) =
      periodic_check-idle c net tnow dpd w' on (omega (arith, idle, same.data_eq))
        (omega (arith, due, same.check_eq)) in
    (ended, silent)
