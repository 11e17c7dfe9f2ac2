-- ===== src/Mpeg/PsiWrite.antt =====
-- The tables of programs, as mpegtsmux.c writes them.
use Prim.Native.Nat.{bit_or}
use tcvp.Prelude.{ℕ, ◌∷◌, ◌++◌, replicate}
use tcvp.Prelude.Wire.{Bytes}
use tcvp.Mpeg.Pes.{be16}
use tcvp.Mpeg.Crc.{mpeg_crc32, be32}

-- The section of `pat_packet` before its checksum.
unfoldable pub pat_section : ℕ → ℕ → Bytes
pat_section pn pmpid =
    0 ∷ (be16 0xb00d ++ (be16 0 ++ (0xc1 ∷ 0 ∷ 0 ∷ (be16 pn ++ be16 (bit_or pmpid 0xe000)))))

-- `pat_packet`
unfoldable pub pat_packet : ℕ → ℕ → Bytes
pat_packet pn pmpid =
    0x47
    ∷ (be16 0x4000
        ++ (0x10
            ∷ 0
            ∷ (pat_section pn pmpid
                ++ (be32 (mpeg_crc32 (pat_section pn pmpid)) ++ replicate 167 0xff))))

-- `init_pmt`: the table without streams, which `mpegts_probe` appends behind `pmap`. The checksum is not
-- there yet.
unfoldable pub init_pmt : ℕ → ℕ → Bytes
init_pmt pid pcr_pid =
    0x47
    ∷ (be16 (bit_or 0x4000 pid)
        ++ (0x10
            ∷ 0
            ∷ 2
            ∷ 0xb0
            ∷ 13
            ∷ (be16 1
                ++ (0xc1
                    ∷ 0
                    ∷ 0
                    ∷ (be16 (bit_or pcr_pid 0xe000) ++ (0 ∷ 0 ∷ replicate 171 0xff))))))
