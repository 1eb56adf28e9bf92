-- ===== src/Hpack/Inflate/Tests.antt =====
-- The request of RFC 7541, C.4.1, and its fields; the theorem at it.
use kitura_http.Prelude.{ℕ, suc, ◌≡◌, refl, List, [], ◌∷◌, true}
use kitura_http.Hpack.Table.{HdEntry}
use kitura_http.Hpack.Huffman.{transition}
use kitura_http.Hpack.Token.{ascii}
use kitura_http.Hpack.Inflater.{Inflater, inflate_init}
use kitura_http.Hpack.Inflate.Run.{Inflated, emitted, inflate_hd_nv}

abbrev nothing : HdEntry
nothing = record { name = []; value = []; seq = 0 }

abbrev fresh : Inflater
fresh =
    inflate_init
      (record {
        hd_table = record {
          buffer = nothing ∷ nothing ∷ nothing ∷ nothing ∷ [];
          first = 0;
          len = 0;
        };
        hd_table_bufsize = 0;
        hd_table_bufsize_max = 4096;
        next_seq = 0;
      })
      (true ∷ true ∷ true ∷ true ∷ true ∷ true ∷ [])

abbrev request : List ℕ
request =
    130 ∷ 134 ∷ 132 ∷ 65 ∷ 140 ∷ 241 ∷ 227 ∷ 194 ∷ 229 ∷ 242 ∷ 58 ∷ 107 ∷ 160 ∷ 171 ∷ 144 ∷ 244
    ∷ 255 ∷ []

-- The fields of a block, one call after another.
fields : ℕ → Inflated → List (List ℕ × List ℕ)
unfolding inflate_hd_nv
fields (suc n) (emitted g nv rest) = (nv.name, nv.value) ∷ fields n (inflate_hd_nv g rest true)
fields n _ = []

four_fields :
    fields 5 (inflate_hd_nv fresh request true)
    ≡ (ascii ":method", ascii "GET")
      ∷ (ascii ":scheme", ascii "http")
      ∷ (ascii ":path", ascii "/")
      ∷ (ascii ":authority", ascii "www.example.com")
      ∷ []
unfolding fields inflate_hd_nv inflate_init transition
four_fields = refl
