-- ===== src/Hpack/Huffman/Nodes.antt =====
-- The node of the code tree for which each state of huff_decode_table stands: the bits that were read
-- of a code that is not complete yet, as their number and their value.
use kitura_http.Prelude.{List, [], ◌∷◌, ◌++◌}
use kitura_http.Hpack.Huffman.Symbols.{HuffSym, bits_of}

unfoldable pub nodes : List HuffSym
nodes =
    (bits_of 0 0x0 ∷ bits_of 1 0x0 ∷ bits_of 2 0x0 ∷ bits_of 3 0x0 ∷ [])
    ++ (bits_of 4 0x0 ∷ bits_of 4 0x1 ∷ bits_of 3 0x1 ∷ bits_of 4 0x2 ∷ [])
    ++ (bits_of 4 0x3 ∷ bits_of 2 0x1 ∷ bits_of 3 0x2 ∷ bits_of 4 0x4 ∷ [])
    ++ (bits_of 4 0x5 ∷ bits_of 5 0xa ∷ bits_of 5 0xb ∷ bits_of 3 0x3 ∷ [])
    ++ (bits_of 4 0x6 ∷ bits_of 5 0xc ∷ bits_of 5 0xd ∷ bits_of 4 0x7 ∷ [])
    ++ (bits_of 5 0xe ∷ bits_of 5 0xf ∷ bits_of 1 0x1 ∷ bits_of 2 0x2 ∷ [])
    ++ (bits_of 3 0x4 ∷ bits_of 4 0x8 ∷ bits_of 5 0x10 ∷ bits_of 5 0x11 ∷ [])
    ++ (bits_of 4 0x9 ∷ bits_of 5 0x12 ∷ bits_of 5 0x13 ∷ bits_of 3 0x5 ∷ [])
    ++ (bits_of 4 0xa ∷ bits_of 5 0x14 ∷ bits_of 5 0x15 ∷ bits_of 4 0xb ∷ [])
    ++ (bits_of 5 0x16 ∷ bits_of 5 0x17 ∷ bits_of 6 0x2e ∷ bits_of 6 0x2f ∷ [])
    ++ (bits_of 2 0x3 ∷ bits_of 3 0x6 ∷ bits_of 4 0xc ∷ bits_of 5 0x18 ∷ [])
    ++ (bits_of 6 0x30 ∷ bits_of 6 0x31 ∷ bits_of 5 0x19 ∷ bits_of 6 0x32 ∷ [])
    ++ (bits_of 6 0x33 ∷ bits_of 4 0xd ∷ bits_of 5 0x1a ∷ bits_of 6 0x34 ∷ [])
    ++ (bits_of 6 0x35 ∷ bits_of 5 0x1b ∷ bits_of 6 0x36 ∷ bits_of 6 0x37 ∷ [])
    ++ (bits_of 3 0x7 ∷ bits_of 4 0xe ∷ bits_of 5 0x1c ∷ bits_of 6 0x38 ∷ [])
    ++ (bits_of 6 0x39 ∷ bits_of 5 0x1d ∷ bits_of 6 0x3a ∷ bits_of 6 0x3b ∷ [])
    ++ (bits_of 4 0xf ∷ bits_of 5 0x1e ∷ bits_of 6 0x3c ∷ bits_of 6 0x3d ∷ [])
    ++ (bits_of 5 0x1f ∷ bits_of 6 0x3e ∷ bits_of 7 0x7c ∷ bits_of 7 0x7d ∷ [])
    ++ (bits_of 6 0x3f ∷ bits_of 7 0x7e ∷ bits_of 7 0x7f ∷ bits_of 8 0xfe ∷ [])
    ++ (bits_of 9 0x1fc ∷ bits_of 9 0x1fd ∷ bits_of 8 0xff ∷ bits_of 9 0x1fe ∷ [])
    ++ (bits_of 10 0x3fd ∷ bits_of 9 0x1ff ∷ bits_of 10 0x3fe ∷ bits_of 11 0x7fd ∷ [])
    ++ (bits_of 10 0x3ff ∷ bits_of 11 0x7fe ∷ bits_of 12 0xffc ∷ bits_of 12 0xffd ∷ [])
    ++ (bits_of 11 0x7ff ∷ bits_of 12 0xffe ∷ bits_of 12 0xfff ∷ bits_of 13 0x1ffe ∷ [])
    ++ (bits_of 13 0x1fff ∷ bits_of 14 0x3ffe ∷ bits_of 14 0x3fff ∷ bits_of 15 0x7fff ∷ [])
    ++ (bits_of 16 0xfffe ∷ bits_of 17 0x1fffc ∷ bits_of 18 0x3fff8 ∷ bits_of 18 0x3fff9 ∷ [])
    ++ (bits_of 19 0x7fff3 ∷ bits_of 17 0x1fffd ∷ bits_of 18 0x3fffa ∷ bits_of 19 0x7fff4 ∷ [])
    ++ (bits_of 19 0x7fff5 ∷ bits_of 18 0x3fffb ∷ bits_of 19 0x7fff6 ∷ bits_of 19 0x7fff7 ∷ [])
    ++ (bits_of 20 0xfffee ∷ bits_of 20 0xfffef ∷ bits_of 16 0xffff ∷ bits_of 17 0x1fffe ∷ [])
    ++ (bits_of 18 0x3fffc ∷ bits_of 19 0x7fff8 ∷ bits_of 20 0xffff0 ∷ bits_of 20 0xffff1 ∷ [])
    ++ (bits_of 19 0x7fff9 ∷ bits_of 20 0xffff2 ∷ bits_of 20 0xffff3 ∷ bits_of 18 0x3fffd ∷ [])
    ++ (bits_of 19 0x7fffa ∷ bits_of 20 0xffff4 ∷ bits_of 21 0x1fffe9 ∷ bits_of 20 0xffff5 ∷ [])
    ++ (bits_of 21 0x1fffea ∷ bits_of 21 0x1fffeb ∷ bits_of 19 0x7fffb ∷ bits_of 20 0xffff6 ∷ [])
    ++ (bits_of 21 0x1fffec ∷ bits_of 21 0x1fffed ∷ bits_of 20 0xffff7 ∷ bits_of 21 0x1fffee ∷ [])
    ++ (bits_of 21 0x1fffef ∷ bits_of 17 0x1ffff ∷ bits_of 18 0x3fffe ∷ bits_of 19 0x7fffc ∷ [])
    ++ (bits_of 20 0xffff8 ∷ bits_of 21 0x1ffff0 ∷ bits_of 21 0x1ffff1 ∷ bits_of 20 0xffff9 ∷ [])
    ++ (bits_of 21 0x1ffff2 ∷ bits_of 21 0x1ffff3 ∷ bits_of 19 0x7fffd ∷ bits_of 20 0xffffa ∷ [])
    ++ (bits_of 21 0x1ffff4 ∷ bits_of 21 0x1ffff5 ∷ bits_of 20 0xffffb ∷ bits_of 21 0x1ffff6 ∷ [])
    ++ (bits_of 22 0x3fffec ∷ bits_of 22 0x3fffed ∷ bits_of 21 0x1ffff7 ∷ bits_of 22 0x3fffee ∷ [])
    ++ (bits_of 22 0x3fffef ∷ bits_of 18 0x3ffff ∷ bits_of 19 0x7fffe ∷ bits_of 20 0xffffc ∷ [])
    ++ (bits_of 21 0x1ffff8 ∷ bits_of 22 0x3ffff0 ∷ bits_of 22 0x3ffff1 ∷ bits_of 21 0x1ffff9 ∷ [])
    ++ (bits_of 22 0x3ffff2 ∷ bits_of 22 0x3ffff3 ∷ bits_of 20 0xffffd ∷ bits_of 21 0x1ffffa ∷ [])
    ++ (bits_of 22 0x3ffff4 ∷ bits_of 22 0x3ffff5 ∷ bits_of 21 0x1ffffb ∷ bits_of 22 0x3ffff6 ∷ [])
    ++ (bits_of 22 0x3ffff7 ∷ bits_of 19 0x7ffff ∷ bits_of 20 0xffffe ∷ bits_of 21 0x1ffffc ∷ [])
    ++ (bits_of 22 0x3ffff8 ∷ bits_of 22 0x3ffff9 ∷ bits_of 21 0x1ffffd ∷ bits_of 22 0x3ffffa ∷ [])
    ++ (bits_of 23 0x7ffff5 ∷ bits_of 22 0x3ffffb ∷ bits_of 23 0x7ffff6 ∷ bits_of 23 0x7ffff7 ∷ [])
    ++ (bits_of 20 0xfffff ∷ bits_of 21 0x1ffffe ∷ bits_of 22 0x3ffffc ∷ bits_of 23 0x7ffff8 ∷ [])
    ++ (bits_of 23 0x7ffff9 ∷ bits_of 22 0x3ffffd ∷ bits_of 23 0x7ffffa ∷ bits_of 23 0x7ffffb ∷ [])
    ++ (bits_of 24 0xfffff6 ∷ bits_of 24 0xfffff7 ∷ bits_of 21 0x1fffff ∷ bits_of 22 0x3ffffe ∷ [])
    ++ (bits_of 23 0x7ffffc
        ∷ bits_of 24 0xfffff8
        ∷ bits_of 25 0x1fffff0
        ∷ bits_of 25 0x1fffff1
        ∷ [])
    ++ (bits_of 24 0xfffff9
        ∷ bits_of 25 0x1fffff2
        ∷ bits_of 25 0x1fffff3
        ∷ bits_of 23 0x7ffffd
        ∷ [])
    ++ (bits_of 24 0xfffffa
        ∷ bits_of 25 0x1fffff4
        ∷ bits_of 25 0x1fffff5
        ∷ bits_of 24 0xfffffb
        ∷ [])
    ++ (bits_of 25 0x1fffff6
        ∷ bits_of 25 0x1fffff7
        ∷ bits_of 26 0x3ffffef
        ∷ bits_of 22 0x3fffff
        ∷ [])
    ++ (bits_of 23 0x7ffffe
        ∷ bits_of 24 0xfffffc
        ∷ bits_of 25 0x1fffff8
        ∷ bits_of 26 0x3fffff0
        ∷ [])
    ++ (bits_of 26 0x3fffff1
        ∷ bits_of 25 0x1fffff9
        ∷ bits_of 26 0x3fffff2
        ∷ bits_of 26 0x3fffff3
        ∷ [])
    ++ (bits_of 24 0xfffffd
        ∷ bits_of 25 0x1fffffa
        ∷ bits_of 26 0x3fffff4
        ∷ bits_of 26 0x3fffff5
        ∷ [])
    ++ (bits_of 25 0x1fffffb
        ∷ bits_of 26 0x3fffff6
        ∷ bits_of 26 0x3fffff7
        ∷ bits_of 23 0x7fffff
        ∷ [])
    ++ (bits_of 24 0xfffffe
        ∷ bits_of 25 0x1fffffc
        ∷ bits_of 26 0x3fffff8
        ∷ bits_of 27 0x7fffff1
        ∷ [])
    ++ (bits_of 26 0x3fffff9
        ∷ bits_of 27 0x7fffff2
        ∷ bits_of 27 0x7fffff3
        ∷ bits_of 25 0x1fffffd
        ∷ [])
    ++ (bits_of 26 0x3fffffa
        ∷ bits_of 27 0x7fffff4
        ∷ bits_of 27 0x7fffff5
        ∷ bits_of 26 0x3fffffb
        ∷ [])
    ++ (bits_of 27 0x7fffff6
        ∷ bits_of 27 0x7fffff7
        ∷ bits_of 24 0xffffff
        ∷ bits_of 25 0x1fffffe
        ∷ [])
    ++ (bits_of 26 0x3fffffc
        ∷ bits_of 27 0x7fffff8
        ∷ bits_of 27 0x7fffff9
        ∷ bits_of 26 0x3fffffd
        ∷ [])
    ++ (bits_of 27 0x7fffffa
        ∷ bits_of 27 0x7fffffb
        ∷ bits_of 25 0x1ffffff
        ∷ bits_of 26 0x3fffffe
        ∷ [])
    ++ (bits_of 27 0x7fffffc
        ∷ bits_of 27 0x7fffffd
        ∷ bits_of 26 0x3ffffff
        ∷ bits_of 27 0x7fffffe
        ∷ [])
    ++ (bits_of 27 0x7ffffff
        ∷ bits_of 28 0xfffffff
        ∷ bits_of 29 0x1ffffffe
        ∷ bits_of 29 0x1fffffff
        ∷ [])
