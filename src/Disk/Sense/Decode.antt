-- ===== src/Disk/Sense/Decode.antt =====
-- What an initiator reads from built sense data, by the layout of the fixed format.
use istgt.Prelude.{ℕ, ◌<◌, ◌≡◌, refl, arith, length}
use istgt.Misc.Bytes.{Buf, dget16, bget8w, bget8, buf_of}
use istgt.Disk.Sense.{build_sense_data, build_sense_data2}

-- What the fixed format says, read back from its bytes.
pub record Decoded : Type 0 where
  pub sense_length : ℕ
  pub valid : ℕ
  pub response_code : ℕ
  pub sense_key : ℕ
  pub additional_length : ℕ
  pub code : ℕ
  pub qualifier : ℕ

unfoldable pub decode : Buf → Decoded
decode b = record {
  sense_length = dget16 b;
  valid = bget8 (b 2) 7;
  response_code = bget8w (b 2) 6 7;
  sense_key = bget8w (b 4) 3 4;
  additional_length = b 9;
  code = b 14;
  qualifier = b 15;
}

-- For a sense key below 16 and codes below 256, the twenty bytes of either kind of sense data
-- read back as that key and those codes, with the response code of the kind, a sense length of 18
-- and an additional length of 10.
pub decode-build_sense_data :
    (sk asc ascq : ℕ)
    → sk < 16
    → asc < 256
    → ascq < 256
    → (length (build_sense_data sk asc ascq) ≡ 20)
      × (decode (buf_of (build_sense_data sk asc ascq)) ≡ record {
        sense_length = 18;
        valid = 1;
        response_code = 0x70;
        sense_key = sk;
        additional_length = 10;
        code = asc;
        qualifier = ascq;
      })
      × (decode (buf_of (build_sense_data2 sk asc ascq)) ≡ record {
        sense_length = 18;
        valid = 1;
        response_code = 0x71;
        sense_key = sk;
        additional_length = 10;
        code = asc;
        qualifier = ascq;
      })
unfolding decode build_sense_data build_sense_data2 buf_of dget16 bget8w bget8
decode-build_sense_data sk asc ascq h k l = (refl, ground arith, ground arith)
