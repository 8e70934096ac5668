-- ===== src/Worker/Tun/Framing.antt =====
-- What one end of the CSTP channel sends of a packet, the other end reads.
use ocserv_ppa.Base.{
  ℕ, ◌^◌, ◌≤◌, ◌<◌, ◌≡◌, inl, inr, Option-cases, Bool-cases, ◌∙◌, ◌&&◌, refl, Bool, true, false,
  List, [], ◌∷◌, Option, none, some, arith, length, ltb,
}
use ocserv_ppa.Bandwidth.{Timespec, bandwidth_update}
use ocserv_ppa.Worker.{Worker, Settings, Sent, is_fatal, is_active, UdpState}
use ocserv_ppa.Worker.Packets.{
  World, parse_data, write_tun, write_compressed, parse_cstp_data, ac_pkt_data, ac_pkt_compressed,
  is_cstp,
}
use ocserv_ppa.Worker.Packets.Refused.{IsFrame}
use ocserv_ppa.Worker.Tun.{
  TunRead, tun_mainloop, tun_packet, leave_udp, pack_dtls, is_same_comp, cstp_frame, pack,
  pack_cstp, send_cstp,
}

-- What the compressors of one end make smaller, those of the other end read.
abbrev pub Decompresses : World → World → Type 0
Decompresses env env' =
    (k : ℕ) (plain bytes : List ℕ)
    → env.compress k plain ≡ some bytes
    → env'.decompress k bytes ≡ some plain

cstp_frame-IsFrame :
    (type : ℕ) (bytes : List ℕ) → length bytes < 2 ^ 16 → IsFrame (cstp_frame type bytes)
unfolding cstp_frame is_cstp
cstp_frame-IsFrame type bytes small = record { header = refl; size = omega (arith, small) }

pack-short :
    (c : Settings) (env : World) (comp : Option ℕ) (plain : List ℕ)
    → length (pack c env comp plain).1 ≤ length plain
unfolding pack
pack-short c env none plain = omega arith
pack-short c env (some k) plain = ground arith

-- Data in a frame, and compressed data.
parse_data-plain :
    (env : World) (w : Worker) (plain : List ℕ) (now : ℕ)
    → parse_data env w (cstp_frame ac_pkt_data plain) now false ≡ write_tun env w now plain
unfolding parse_data cstp_frame
parse_data-plain env w plain now = refl

parse_data-compressed :
    (env : World) (w : Worker) (k b : ℕ) (bs bytes : List ℕ) (now : ℕ)
    → w.cstp_selected_comp ≡ some k
    → env.decompress k bytes ≡ some (b ∷ bs)
    → parse_data env w (cstp_frame ac_pkt_compressed bytes) now false ≡ write_tun env w now (b ∷ bs)
unfolding parse_data cstp_frame write_compressed
parse_data-compressed env w k b bs bytes now same inverse = ground (arith, same, inverse)

parse_data-pack :
    (c : Settings) (env env' : World) (comp : Option ℕ) (w : Worker) (b : ℕ) (bs : List ℕ) (now : ℕ)
    → Decompresses env env'
    → w.cstp_selected_comp ≡ comp
    → parse_data env' w
        (cstp_frame (pack c env comp (b ∷ bs)).0 (pack c env comp (b ∷ bs)).1)
        now
        false
      ≡ write_tun env' w now (b ∷ bs)
unfolding pack
parse_data-pack c env env' none w b bs now inverse same = parse_data-plain env' w (b ∷ bs) now
parse_data-pack c env env' (some k) w b bs now inverse same =
    elim (Option-cases (env.compress k (b ∷ bs))) [
      | inl fails ↦ ground (arith, fails, parse_data-plain env' w (b ∷ bs) now)
      | inr (bytes, packed) ↦ ground (
        arith,
        packed,
        parse_data-plain env' w (b ∷ bs) now,
        parse_data-compressed env' w k b bs bytes now same (inverse k (b ∷ bs) bytes packed),
      )
    ]

same_comp-eq : (x y : Option ℕ) → is_same_comp x y ≡ true → x ≡ y
same_comp-eq none y h = ground (arith, h)
same_comp-eq (some a) none h = ground (arith, h)
same_comp-eq (some a) (some b) h = ground (arith, h)

pack_cstp-short :
    (c : Settings) (env : World) (w : Worker) (plain : List ℕ)
    → length (pack_cstp c env w plain).1 ≤ length plain
unfolding pack_cstp
pack_cstp-short c env w plain = ground (
  arith,
  pack-short c env w.cstp_selected_comp plain,
  pack-short c env w.dtls_selected_comp plain,
)

parse_data-pack_cstp :
    (c : Settings) (env env' : World) (w w' : Worker) (b : ℕ) (bs : List ℕ) (now : ℕ)
    → Decompresses env env'
    → w'.cstp_selected_comp ≡ w.cstp_selected_comp
    → parse_data env' w'
        (cstp_frame (pack_cstp c env w (b ∷ bs)).0 (pack_cstp c env w (b ∷ bs)).1)
        now
        false
      ≡ write_tun env' w' now (b ∷ bs)
unfolding pack_cstp
parse_data-pack_cstp c env env' w w' b bs now inverse same =
    let udp =
      is_active w.udp_state
      && (elim w.dtls_selected_comp as (λ o. Bool) [ none ↦ false | some comp ↦ true ])
      && ltb c.no_compress_limit (length (b ∷ bs)) in
    elim (Bool-cases udp) [
      | inr off ↦ rw off (parse_data-pack c env env' w.cstp_selected_comp w' b bs now inverse same)
      | inl on ↦ elim (Bool-cases (is_same_comp w.cstp_selected_comp w.dtls_selected_comp)) [
        | inr differ ↦ rw on (rw differ (parse_data-plain env' w' (b ∷ bs) now))
        | inl equal ↦ rw on (
            rw equal (
              parse_data-pack c env env' w.dtls_selected_comp w' b bs now inverse
                (same ∙ same_comp-eq w.cstp_selected_comp w.dtls_selected_comp equal)))
      ]
    ]

-- A frame is read as its content, by a worker whose UDP channel is not in use.
parse_cstp_data-frame :
    (env : World) (w : Worker) (type : ℕ) (bytes plain : List ℕ) (now : ℕ)
    → length bytes < 2 ^ 16
    → env.tun_write plain ≡ true
    → ((w' : Worker)
        → w'.cstp_selected_comp ≡ w.cstp_selected_comp
        → parse_data env w' (cstp_frame type bytes) now false ≡ write_tun env w' now plain)
    → (parse_cstp_data env w (cstp_frame type bytes) now).sent ≡ Sent.to_tun plain ∷ []
unfolding parse_cstp_data write_tun
parse_cstp_data-frame env w type bytes plain now small writes reads = ground (
  arith,
  cstp_frame-IsFrame type bytes small,
  reads w refl,
  reads (record w { udp_state = UdpState.inactive }) refl,
  writes,
)

tun_packet-cstp :
    (c : Settings) (env : World) (w : Worker) (plain : List ℕ) (tnow : Timespec)
    → is_active w.udp_state ≡ false
    → (bandwidth_update w.b_tx (length plain) tnow).0 ≡ true
    → ((frame : List ℕ) → is_fatal (env.cstp_send frame) ≡ false)
    → let packet = pack_cstp c env w plain in
      (tun_packet c env tnow w plain).sent ≡ Sent.to_cstp (cstp_frame packet.0 packet.1) ∷ []
unfolding tun_packet leave_udp pack_dtls send_cstp pack_cstp
tun_packet-cstp c env w plain tnow off may sends =
    let packet = pack_cstp c env w plain in
    ground (arith, off, may, sends (cstp_frame packet.0 packet.1))

-- A packet that comes from the TUN device of one end while UDP is not in use, and that the limit on what it sends
-- lets pass, is one frame on its CSTP channel, and the other end writes the same packet to its TUN device, be it
-- compressed or not: if the ends agreed on the compressor, and what the one compresses the other restores. The
-- packet has less than 64 KB, and neither sending nor writing fails.
pub tun_packet-written :
    (c : Settings) (env env' : World) (w w' : Worker) (b : ℕ) (bs : List ℕ) (tnow : Timespec)
    (now : ℕ)
    → Decompresses env env'
    → w'.cstp_selected_comp ≡ w.cstp_selected_comp
    → is_active w.udp_state ≡ false
    → (bandwidth_update w.b_tx (length (b ∷ bs)) tnow).0 ≡ true
    → length (b ∷ bs) < 2 ^ 16
    → ((frame : List ℕ) → is_fatal (env.cstp_send frame) ≡ false)
    → env'.tun_write (b ∷ bs) ≡ true
    → let packet = pack_cstp c env w (b ∷ bs) in
      let frame = cstp_frame packet.0 packet.1 in
      ((tun_mainloop c env (TunRead.bytes (b ∷ bs)) tnow w).sent ≡ Sent.to_cstp frame ∷ [])
      × ((parse_cstp_data env' w' frame now).sent ≡ Sent.to_tun (b ∷ bs) ∷ [])
unfolding tun_mainloop
tun_packet-written c env env' w w' b bs tnow now inverse same off may small sends writes =
    let packet = pack_cstp c env w (b ∷ bs) in
    (
      tun_packet-cstp c env w (b ∷ bs) tnow off may sends,
      parse_cstp_data-frame env' w' packet.0 packet.1 (b ∷ bs) now
          (omega (arith, small, pack_cstp-short c env w (b ∷ bs))) writes
          (λ v e. parse_data-pack_cstp c env env' w v b bs now inverse (e ∙ same)),
    )
