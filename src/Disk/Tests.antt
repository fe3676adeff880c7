-- ===== src/Disk/Tests.antt =====
-- The theorem on sense data at concrete codes.
use istgt.Prelude.{◌≡◌, arith, length}
use istgt.Misc.Bytes.{buf_of}
use istgt.Disk.Sense.{build_sense_data, build_sense_data2}
use istgt.Disk.Sense.Decode.{decode, decode-build_sense_data}

decode-build_sense_data_example :
    (length (build_sense_data 5 0x26 4) ≡ 20)
    × (decode (buf_of (build_sense_data 5 0x26 4)) ≡ record {
      sense_length = 18;
      valid = 1;
      response_code = 0x70;
      sense_key = 5;
      additional_length = 10;
      code = 0x26;
      qualifier = 4;
    })
    × (decode (buf_of (build_sense_data2 5 0x26 4)) ≡ record {
      sense_length = 18;
      valid = 1;
      response_code = 0x71;
      sense_key = 5;
      additional_length = 10;
      code = 0x26;
      qualifier = 4;
    })
decode-build_sense_data_example =
    decode-build_sense_data 5 0x26 4 (omega arith) (omega arith) (omega arith)
