-- ===== src/Worker/Packets/Refused.antt =====
-- Which packets on the CSTP channel reach the TUN device, and what those that are no frames do.
use ocserv_ppa.Base.{
  ℕ, ◌+◌, ◌≡◌, ◌≢◌, ◌⊎◌, true, false, List, [], some, arith, length, drop, get_or,
}
use ocserv_ppa.Base.Int.{negsuc}
use ocserv_ppa.Worker.{Worker}
use ocserv_ppa.Worker.Packets.{
  World, going, is_cstp, cstp_length, parse_cstp_data, ac_pkt_data, ac_pkt_compressed,
}

-- A frame: the header, and as many bytes as it says.
pub record IsFrame (buf : List ℕ) : Type 0 where
  pub header : is_cstp buf ≡ true
  pub size : length buf ≡ 8 + cstp_length buf

-- What a frame holds, as the peer sent it: as it is, or compressed.
pub record IsPayload (env : World) (w : Worker) (buf plain : List ℕ) : Type 0 where
  pub frame : IsFrame buf
  pub content :
      ((get_or buf 6 0 ≡ ac_pkt_data) × (plain ≡ drop 8 buf))
      ⊎ ((get_or buf 6 0 ≡ ac_pkt_compressed)
          × ((comp : ℕ) × (w.cstp_selected_comp ≡ some comp)
              × (env.decompress comp (drop 8 buf) ≡ some plain)))

-- What is no frame is refused and changes nothing.
pub parse_cstp_data-refused :
    (env : World) (w : Worker) (buf : List ℕ) (now : ℕ)
    → ((is_cstp buf ≡ false) ⊎ (length buf ≢ 8 + cstp_length buf))
    → parse_cstp_data env w buf now ≡ going (negsuc 0) [] w
unfolding parse_cstp_data
parse_cstp_data-refused env w buf now bad = ground (arith, bad)

pub parse_cstp_data-IsFrame :
    (env : World) (w : Worker) (buf : List ℕ) (now : ℕ)
    → (parse_cstp_data env w buf now).sent ≢ []
    → IsFrame buf
unfolding parse_cstp_data
parse_cstp_data-IsFrame env w buf now sent = ground (arith, sent)
