-- ===== src/Wire/Tests.antt =====
-- Runs of the header codecs at fixed inputs.
use openmc.Common.{◌≡◌, refl, [], ◌∷◌, ◌++◌, ◌+◌, arith, drop, length}
use openmc.Wire.{
  FecFragmentHdr, RqDataHdr, encode_fec_hdr, decode_fec_hdr, encode_rq_hdr, decode_rq_hdr,
  fec_hdr_size, rq_hdr_size,
}
use openmc.Wire.Roundtrip.{decode-encode_fec_hdr, decode-encode_rq_hdr}

abbrev data_hdr : FecFragmentHdr
data_hdr = record { gen_id = 0x1234; index = 5; type = 0; original_len = 3; reserved = 0 }

abbrev repair_hdr : RqDataHdr
repair_hdr = record {
  block_id = 513;
  k = 8;
  esi = 0x0001_0203;
  symbol_len = 2;
  is_source = 0;
  reserved = 0;
}

encode_fec_hdr_run : encode_fec_hdr data_hdr ≡ 0x12 ∷ 0x34 ∷ 5 ∷ 0 ∷ 0 ∷ 3 ∷ 0 ∷ 0 ∷ []
unfolding encode_fec_hdr
encode_fec_hdr_run = refl

encode_rq_hdr_run : encode_rq_hdr repair_hdr ≡ 2 ∷ 1 ∷ 0 ∷ 8 ∷ 0 ∷ 1 ∷ 2 ∷ 3 ∷ 0 ∷ 2 ∷ 0 ∷ 0 ∷ []
unfolding encode_rq_hdr
encode_rq_hdr_run = refl

decode-encode_fec_hdr_example :
    (decode_fec_hdr (encode_fec_hdr data_hdr ++ (7 ∷ 8 ∷ 9 ∷ [])) ≡ data_hdr)
    × (drop fec_hdr_size (encode_fec_hdr data_hdr ++ (7 ∷ 8 ∷ 9 ∷ [])) ≡ 7 ∷ 8 ∷ 9 ∷ [])
    × (length (encode_fec_hdr data_hdr ++ (7 ∷ 8 ∷ 9 ∷ [])) ≡ fec_hdr_size + 3)
decode-encode_fec_hdr_example = decode-encode_fec_hdr data_hdr (7 ∷ 8 ∷ 9 ∷ []) (omega arith)

decode-encode_rq_hdr_example :
    (decode_rq_hdr (encode_rq_hdr repair_hdr ++ (7 ∷ 8 ∷ [])) ≡ repair_hdr)
    × (drop rq_hdr_size (encode_rq_hdr repair_hdr ++ (7 ∷ 8 ∷ [])) ≡ 7 ∷ 8 ∷ [])
    × (length (encode_rq_hdr repair_hdr ++ (7 ∷ 8 ∷ [])) ≡ rq_hdr_size + 2)
decode-encode_rq_hdr_example = decode-encode_rq_hdr repair_hdr (7 ∷ 8 ∷ []) (omega arith)
