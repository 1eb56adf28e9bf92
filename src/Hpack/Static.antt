-- ===== src/Hpack/Static.antt =====
-- Sources/nghttp2/nghttp2_hd.c, static_table: the 61 fields of RFC 7541, appendix A.
use Prim.Native.String.{String}
use kitura_http.Prelude.{ℕ, List, [], ◌∷◌}
use kitura_http.Hpack.Token.{ascii}

-- nghttp2_hd_static_entry; the hash is that of the name.
pub record StaticEntry : Type 0 where
  pub name : List ℕ
  pub value : List ℕ
  pub token : ℕ
  pub hash : ℕ

abbrev static_ent : String → String → ℕ → ℕ → StaticEntry
static_ent name value token hash = record {
  name = ascii name;
  value = ascii value;
  token = token;
  hash = hash;
}

unfoldable pub static_table : List StaticEntry
static_table =
    static_ent ":authority" "" 0 3153725150
    ∷ static_ent ":method" "GET" 1 695666056
    ∷ static_ent ":method" "POST" 1 695666056
    ∷ static_ent ":path" "/" 3 3292848686
    ∷ static_ent ":path" "/index.html" 3 3292848686
    ∷ static_ent ":scheme" "http" 5 2510477674
    ∷ static_ent ":scheme" "https" 5 2510477674
    ∷ static_ent ":status" "200" 7 4000288983
    ∷ static_ent ":status" "204" 7 4000288983
    ∷ static_ent ":status" "206" 7 4000288983
    ∷ static_ent ":status" "304" 7 4000288983
    ∷ static_ent ":status" "400" 7 4000288983
    ∷ static_ent ":status" "404" 7 4000288983
    ∷ static_ent ":status" "500" 7 4000288983
    ∷ static_ent "accept-charset" "" 14 3664010344
    ∷ static_ent "accept-encoding" "gzip, deflate" 15 3379649177
    ∷ static_ent "accept-language" "" 16 1979086614
    ∷ static_ent "accept-ranges" "" 17 1713753958
    ∷ static_ent "accept" "" 18 136609321
    ∷ static_ent "access-control-allow-origin" "" 19 2710797292
    ∷ static_ent "age" "" 20 742476188
    ∷ static_ent "allow" "" 21 2930878514
    ∷ static_ent "authorization" "" 22 2436257726
    ∷ static_ent "cache-control" "" 23 1355326669
    ∷ static_ent "content-disposition" "" 24 3889184348
    ∷ static_ent "content-encoding" "" 25 65203592
    ∷ static_ent "content-language" "" 26 24973587
    ∷ static_ent "content-length" "" 27 1308181789
    ∷ static_ent "content-location" "" 28 2302364718
    ∷ static_ent "content-range" "" 29 3555523146
    ∷ static_ent "content-type" "" 30 4244048277
    ∷ static_ent "cookie" "" 31 2007449791
    ∷ static_ent "date" "" 32 3564297305
    ∷ static_ent "etag" "" 33 113792960
    ∷ static_ent "expect" "" 34 2530896728
    ∷ static_ent "expires" "" 35 1049544579
    ∷ static_ent "from" "" 36 2513272949
    ∷ static_ent "host" "" 37 2952701295
    ∷ static_ent "if-match" "" 38 3597694698
    ∷ static_ent "if-modified-since" "" 39 2213050793
    ∷ static_ent "if-none-match" "" 40 2536202615
    ∷ static_ent "if-range" "" 41 2340978238
    ∷ static_ent "if-unmodified-since" "" 42 3794814858
    ∷ static_ent "last-modified" "" 43 3226950251
    ∷ static_ent "link" "" 44 232457833
    ∷ static_ent "location" "" 45 200649126
    ∷ static_ent "max-forwards" "" 46 1826162134
    ∷ static_ent "proxy-authenticate" "" 47 2709445359
    ∷ static_ent "proxy-authorization" "" 48 2686392507
    ∷ static_ent "range" "" 49 4208725202
    ∷ static_ent "referer" "" 50 3969579366
    ∷ static_ent "refresh" "" 51 3572655668
    ∷ static_ent "retry-after" "" 52 3336180598
    ∷ static_ent "server" "" 53 1085029842
    ∷ static_ent "set-cookie" "" 54 1848371000
    ∷ static_ent "strict-transport-security" "" 55 4138147361
    ∷ static_ent "transfer-encoding" "" 56 3719590988
    ∷ static_ent "user-agent" "" 57 606444526
    ∷ static_ent "vary" "" 58 1085005381
    ∷ static_ent "via" "" 59 1762798611
    ∷ static_ent "www-authenticate" "" 60 779865858
    ∷ []
