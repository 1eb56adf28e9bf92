-- ===== src/Hpack/Huffman/Symbols.antt =====
-- Sources/nghttp2/nghttp2_hd_huffman_data.c, huff_sym_table: the code of each byte, and of EOS last.
use kitura_http.Prelude.{ℕ, List, [], ◌∷◌, ◌++◌}

-- nghttp2_huff_sym.
pub record HuffSym : Type 0 where
  pub nbits : ℕ
  pub code : ℕ

abbrev pub bits_of : ℕ → ℕ → HuffSym
bits_of nbits code = record { nbits = nbits; code = code }

unfoldable pub huff_sym_table : List HuffSym
huff_sym_table =
    (bits_of 13 0x1ff8 ∷ bits_of 23 0x7fffd8 ∷ bits_of 28 0xfffffe2 ∷ bits_of 28 0xfffffe3 ∷ [])
    ++ (bits_of 28 0xfffffe4
        ∷ bits_of 28 0xfffffe5
        ∷ bits_of 28 0xfffffe6
        ∷ bits_of 28 0xfffffe7
        ∷ [])
    ++ (bits_of 28 0xfffffe8
        ∷ bits_of 24 0xffffea
        ∷ bits_of 30 0x3ffffffc
        ∷ bits_of 28 0xfffffe9
        ∷ [])
    ++ (bits_of 28 0xfffffea
        ∷ bits_of 30 0x3ffffffd
        ∷ bits_of 28 0xfffffeb
        ∷ bits_of 28 0xfffffec
        ∷ [])
    ++ (bits_of 28 0xfffffed
        ∷ bits_of 28 0xfffffee
        ∷ bits_of 28 0xfffffef
        ∷ bits_of 28 0xffffff0
        ∷ [])
    ++ (bits_of 28 0xffffff1
        ∷ bits_of 28 0xffffff2
        ∷ bits_of 30 0x3ffffffe
        ∷ bits_of 28 0xffffff3
        ∷ [])
    ++ (bits_of 28 0xffffff4
        ∷ bits_of 28 0xffffff5
        ∷ bits_of 28 0xffffff6
        ∷ bits_of 28 0xffffff7
        ∷ [])
    ++ (bits_of 28 0xffffff8
        ∷ bits_of 28 0xffffff9
        ∷ bits_of 28 0xffffffa
        ∷ bits_of 28 0xffffffb
        ∷ [])
    ++ (bits_of 6 0x14 ∷ bits_of 10 0x3f8 ∷ bits_of 10 0x3f9 ∷ bits_of 12 0xffa ∷ [])
    ++ (bits_of 13 0x1ff9 ∷ bits_of 6 0x15 ∷ bits_of 8 0xf8 ∷ bits_of 11 0x7fa ∷ [])
    ++ (bits_of 10 0x3fa ∷ bits_of 10 0x3fb ∷ bits_of 8 0xf9 ∷ bits_of 11 0x7fb ∷ [])
    ++ (bits_of 8 0xfa ∷ bits_of 6 0x16 ∷ bits_of 6 0x17 ∷ bits_of 6 0x18 ∷ [])
    ++ (bits_of 5 0x0 ∷ bits_of 5 0x1 ∷ bits_of 5 0x2 ∷ bits_of 6 0x19 ∷ [])
    ++ (bits_of 6 0x1a ∷ bits_of 6 0x1b ∷ bits_of 6 0x1c ∷ bits_of 6 0x1d ∷ [])
    ++ (bits_of 6 0x1e ∷ bits_of 6 0x1f ∷ bits_of 7 0x5c ∷ bits_of 8 0xfb ∷ [])
    ++ (bits_of 15 0x7ffc ∷ bits_of 6 0x20 ∷ bits_of 12 0xffb ∷ bits_of 10 0x3fc ∷ [])
    ++ (bits_of 13 0x1ffa ∷ bits_of 6 0x21 ∷ bits_of 7 0x5d ∷ bits_of 7 0x5e ∷ [])
    ++ (bits_of 7 0x5f ∷ bits_of 7 0x60 ∷ bits_of 7 0x61 ∷ bits_of 7 0x62 ∷ [])
    ++ (bits_of 7 0x63 ∷ bits_of 7 0x64 ∷ bits_of 7 0x65 ∷ bits_of 7 0x66 ∷ [])
    ++ (bits_of 7 0x67 ∷ bits_of 7 0x68 ∷ bits_of 7 0x69 ∷ bits_of 7 0x6a ∷ [])
    ++ (bits_of 7 0x6b ∷ bits_of 7 0x6c ∷ bits_of 7 0x6d ∷ bits_of 7 0x6e ∷ [])
    ++ (bits_of 7 0x6f ∷ bits_of 7 0x70 ∷ bits_of 7 0x71 ∷ bits_of 7 0x72 ∷ [])
    ++ (bits_of 8 0xfc ∷ bits_of 7 0x73 ∷ bits_of 8 0xfd ∷ bits_of 13 0x1ffb ∷ [])
    ++ (bits_of 19 0x7fff0 ∷ bits_of 13 0x1ffc ∷ bits_of 14 0x3ffc ∷ bits_of 6 0x22 ∷ [])
    ++ (bits_of 15 0x7ffd ∷ bits_of 5 0x3 ∷ bits_of 6 0x23 ∷ bits_of 5 0x4 ∷ [])
    ++ (bits_of 6 0x24 ∷ bits_of 5 0x5 ∷ bits_of 6 0x25 ∷ bits_of 6 0x26 ∷ [])
    ++ (bits_of 6 0x27 ∷ bits_of 5 0x6 ∷ bits_of 7 0x74 ∷ bits_of 7 0x75 ∷ [])
    ++ (bits_of 6 0x28 ∷ bits_of 6 0x29 ∷ bits_of 6 0x2a ∷ bits_of 5 0x7 ∷ [])
    ++ (bits_of 6 0x2b ∷ bits_of 7 0x76 ∷ bits_of 6 0x2c ∷ bits_of 5 0x8 ∷ [])
    ++ (bits_of 5 0x9 ∷ bits_of 6 0x2d ∷ bits_of 7 0x77 ∷ bits_of 7 0x78 ∷ [])
    ++ (bits_of 7 0x79 ∷ bits_of 7 0x7a ∷ bits_of 7 0x7b ∷ bits_of 15 0x7ffe ∷ [])
    ++ (bits_of 11 0x7fc ∷ bits_of 14 0x3ffd ∷ bits_of 13 0x1ffd ∷ bits_of 28 0xffffffc ∷ [])
    ++ (bits_of 20 0xfffe6 ∷ bits_of 22 0x3fffd2 ∷ bits_of 20 0xfffe7 ∷ bits_of 20 0xfffe8 ∷ [])
    ++ (bits_of 22 0x3fffd3 ∷ bits_of 22 0x3fffd4 ∷ bits_of 22 0x3fffd5 ∷ bits_of 23 0x7fffd9 ∷ [])
    ++ (bits_of 22 0x3fffd6 ∷ bits_of 23 0x7fffda ∷ bits_of 23 0x7fffdb ∷ bits_of 23 0x7fffdc ∷ [])
    ++ (bits_of 23 0x7fffdd ∷ bits_of 23 0x7fffde ∷ bits_of 24 0xffffeb ∷ bits_of 23 0x7fffdf ∷ [])
    ++ (bits_of 24 0xffffec ∷ bits_of 24 0xffffed ∷ bits_of 22 0x3fffd7 ∷ bits_of 23 0x7fffe0 ∷ [])
    ++ (bits_of 24 0xffffee ∷ bits_of 23 0x7fffe1 ∷ bits_of 23 0x7fffe2 ∷ bits_of 23 0x7fffe3 ∷ [])
    ++ (bits_of 23 0x7fffe4 ∷ bits_of 21 0x1fffdc ∷ bits_of 22 0x3fffd8 ∷ bits_of 23 0x7fffe5 ∷ [])
    ++ (bits_of 22 0x3fffd9 ∷ bits_of 23 0x7fffe6 ∷ bits_of 23 0x7fffe7 ∷ bits_of 24 0xffffef ∷ [])
    ++ (bits_of 22 0x3fffda ∷ bits_of 21 0x1fffdd ∷ bits_of 20 0xfffe9 ∷ bits_of 22 0x3fffdb ∷ [])
    ++ (bits_of 22 0x3fffdc ∷ bits_of 23 0x7fffe8 ∷ bits_of 23 0x7fffe9 ∷ bits_of 21 0x1fffde ∷ [])
    ++ (bits_of 23 0x7fffea ∷ bits_of 22 0x3fffdd ∷ bits_of 22 0x3fffde ∷ bits_of 24 0xfffff0 ∷ [])
    ++ (bits_of 21 0x1fffdf ∷ bits_of 22 0x3fffdf ∷ bits_of 23 0x7fffeb ∷ bits_of 23 0x7fffec ∷ [])
    ++ (bits_of 21 0x1fffe0 ∷ bits_of 21 0x1fffe1 ∷ bits_of 22 0x3fffe0 ∷ bits_of 21 0x1fffe2 ∷ [])
    ++ (bits_of 23 0x7fffed ∷ bits_of 22 0x3fffe1 ∷ bits_of 23 0x7fffee ∷ bits_of 23 0x7fffef ∷ [])
    ++ (bits_of 20 0xfffea ∷ bits_of 22 0x3fffe2 ∷ bits_of 22 0x3fffe3 ∷ bits_of 22 0x3fffe4 ∷ [])
    ++ (bits_of 23 0x7ffff0 ∷ bits_of 22 0x3fffe5 ∷ bits_of 22 0x3fffe6 ∷ bits_of 23 0x7ffff1 ∷ [])
    ++ (bits_of 26 0x3ffffe0 ∷ bits_of 26 0x3ffffe1 ∷ bits_of 20 0xfffeb ∷ bits_of 19 0x7fff1 ∷ [])
    ++ (bits_of 22 0x3fffe7 ∷ bits_of 23 0x7ffff2 ∷ bits_of 22 0x3fffe8 ∷ bits_of 25 0x1ffffec ∷ [])
    ++ (bits_of 26 0x3ffffe2
        ∷ bits_of 26 0x3ffffe3
        ∷ bits_of 26 0x3ffffe4
        ∷ bits_of 27 0x7ffffde
        ∷ [])
    ++ (bits_of 27 0x7ffffdf
        ∷ bits_of 26 0x3ffffe5
        ∷ bits_of 24 0xfffff1
        ∷ bits_of 25 0x1ffffed
        ∷ [])
    ++ (bits_of 19 0x7fff2 ∷ bits_of 21 0x1fffe3 ∷ bits_of 26 0x3ffffe6 ∷ bits_of 27 0x7ffffe0 ∷ [])
    ++ (bits_of 27 0x7ffffe1
        ∷ bits_of 26 0x3ffffe7
        ∷ bits_of 27 0x7ffffe2
        ∷ bits_of 24 0xfffff2
        ∷ [])
    ++ (bits_of 21 0x1fffe4
        ∷ bits_of 21 0x1fffe5
        ∷ bits_of 26 0x3ffffe8
        ∷ bits_of 26 0x3ffffe9
        ∷ [])
    ++ (bits_of 28 0xffffffd
        ∷ bits_of 27 0x7ffffe3
        ∷ bits_of 27 0x7ffffe4
        ∷ bits_of 27 0x7ffffe5
        ∷ [])
    ++ (bits_of 20 0xfffec ∷ bits_of 24 0xfffff3 ∷ bits_of 20 0xfffed ∷ bits_of 21 0x1fffe6 ∷ [])
    ++ (bits_of 22 0x3fffe9 ∷ bits_of 21 0x1fffe7 ∷ bits_of 21 0x1fffe8 ∷ bits_of 23 0x7ffff3 ∷ [])
    ++ (bits_of 22 0x3fffea
        ∷ bits_of 22 0x3fffeb
        ∷ bits_of 25 0x1ffffee
        ∷ bits_of 25 0x1ffffef
        ∷ [])
    ++ (bits_of 24 0xfffff4 ∷ bits_of 24 0xfffff5 ∷ bits_of 26 0x3ffffea ∷ bits_of 23 0x7ffff4 ∷ [])
    ++ (bits_of 26 0x3ffffeb
        ∷ bits_of 27 0x7ffffe6
        ∷ bits_of 26 0x3ffffec
        ∷ bits_of 26 0x3ffffed
        ∷ [])
    ++ (bits_of 27 0x7ffffe7
        ∷ bits_of 27 0x7ffffe8
        ∷ bits_of 27 0x7ffffe9
        ∷ bits_of 27 0x7ffffea
        ∷ [])
    ++ (bits_of 27 0x7ffffeb
        ∷ bits_of 28 0xffffffe
        ∷ bits_of 27 0x7ffffec
        ∷ bits_of 27 0x7ffffed
        ∷ [])
    ++ (bits_of 27 0x7ffffee
        ∷ bits_of 27 0x7ffffef
        ∷ bits_of 27 0x7fffff0
        ∷ bits_of 26 0x3ffffee
        ∷ [])
    ++ (bits_of 30 0x3fffffff ∷ [])
