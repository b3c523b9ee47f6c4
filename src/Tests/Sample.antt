-- ===== src/Tests/Sample.antt =====
-- Concrete JSON values and certificates for the tests.
use Prim.Native.String.{String}
use pccs_rs.Common.{
  ℕ, ◌/◌, ◌%◌, Bool, true, false, List, [], ◌∷◌, ◌++◌, Option, none, some, ltb, if◌then◌else◌,
  length, ◌==◌, replicate,
}
use pccs_rs.Common.Text.{Text, codes, text_eq}
use pccs_rs.Common.Int.{ℤ, pos}
use pccs_rs.Common.Json.{JsonApi}
use pccs_rs.Selection.Cert.{sub_oid, sgx_ext_oid}

mutual
  pub data JValue : Type 0 where
    null : JValue
    boolean : Bool → JValue
    num : ℕ → JValue
    str : Text → JValue
    arr : Items → JValue
    obj : Fields → JValue

  pub data Items : Type 0 where
    nil : Items
    cons : JValue → Items → Items

  pub data Fields : Type 0 where
    end : Fields
    field : Text → JValue → Fields → Fields

abbrev pub items : List JValue → Items
items [] = nil
items (v ∷ vs) = cons v (items vs)

abbrev elements : Items → List JValue
elements nil = []
elements (cons v vs) = v ∷ elements vs

abbrev find_field : Text → Fields → Option JValue
find_field key end = none
find_field key (field k v fs) = if text_eq k key then some v else find_field key fs

abbrev get_field : JValue → Text → Option JValue
get_field (obj fs) key = find_field key fs
get_field null key = none
get_field (boolean b) key = none
get_field (num n) key = none
get_field (str s) key = none
get_field (arr vs) key = none

abbrev to_str : JValue → Option Text
to_str (str s) = some s
to_str _ = none

abbrev to_int : JValue → Option ℤ
to_int (num n) = some (pos n)
to_int _ = none

abbrev to_nat : JValue → Option ℕ
to_nat (num n) = some n
to_nat _ = none

abbrev to_bool : JValue → Option Bool
to_bool (boolean b) = some b
to_bool _ = none

abbrev to_array : JValue → Option (List JValue)
to_array (arr vs) = some (elements vs)
to_array _ = none

abbrev object? : JValue → Bool
object? (obj fs) = true
object? _ = false

abbrev null? : JValue → Bool
null? null = true
null? _ = false

abbrev pub json : JsonApi
json = record {
  Value = JValue;
  get = get_field;
  as_str = to_str;
  as_i64 = to_int;
  as_u64 = to_nat;
  as_bool = to_bool;
  as_array = to_array;
  is_object = object?;
  is_null = null?;
}

-- A DER item, with the length in its short form or in two bytes.
abbrev pub der : ℕ → List ℕ → List ℕ
der tag content =
    if ltb (length content) 128
    then tag ∷ length content ∷ content
    else tag ∷ 0x82 ∷ (length content / 256) ∷ (length content % 256) ∷ content

abbrev pair : ℕ → List ℕ → List ℕ
pair last value = der 0x30 (der 0x06 (sub_oid last) ++ value)

abbrev svns : List ℕ → List ℕ
svns [] = []
svns (b ∷ bs) = der 0x30 (der 0x06 (1 ∷ []) ++ der 0x02 (b ∷ [])) ++ svns bs

-- A certificate with the given CPUSVN bytes and PCESVN, below 128.
abbrev certificate : List ℕ → ℕ → List ℕ
certificate cpu pcesvn =
    let tcb =
      der 0x30 (svns cpu ++ svns (pcesvn ∷ []) ++ der 0x30 (der 0x06 (1 ∷ []) ++ der 0x04 cpu)) in
    let sgx = der 0x30 (
      pair 0x01 (der 0x04 (7 ∷ []))
      ++ pair 0x02 tcb
      ++ pair 0x03 (der 0x04 (0 ∷ 0 ∷ []))
      ++ pair 0x04 (der 0x04 (0x00 ∷ 0x90 ∷ 0x6E ∷ 0xA1 ∷ 0 ∷ 0 ∷ []))) in
    let extension = der 0x30 (der 0x06 sgx_ext_oid ++ der 0x04 sgx) in
    der 0x30 (
      der 0x30 (
        der 0xA0 (der 0x02 (2 ∷ []))
        ++ der 0x02 (1 ∷ [])
        ++ der 0x30 []
        ++ der 0x30 (codes "PCK Platform CA")
        ++ der 0xA3 (der 0x30 extension)))

abbrev pub low_cert : List ℕ
low_cert = certificate (replicate 16 1) 5

abbrev pub high_cert : List ℕ
high_cert = certificate (3 ∷ replicate 15 2) 9

-- A stand-in for base64: the texts "L" and "H" stand for the two certificates.
abbrev pub decode : Text → Option (List ℕ)
decode (c ∷ []) = if c == b'L' then some low_cert else if c == b'H' then some high_cert else none
decode _ = none

abbrev pub pem : String → Text
pem s = codes "-----BEGIN CERTIFICATE-----" ++ codes s ++ codes "-----END CERTIFICATE-----"

abbrev component : ℕ → JValue
component n = obj (field (codes "svn") (num n) end)

abbrev components : List ℕ → List JValue
components [] = []
components (n ∷ ns) = component n ∷ components ns

abbrev level : List ℕ → ℕ → JValue
level cpu pcesvn = obj (
    field (codes "tcb")
      (obj (
        field (codes "sgxtcbcomponents") (arr (items (components cpu)))
          (field (codes "pcesvn") (num pcesvn) end)))
      end)

abbrev pub tcb_info : JValue
tcb_info = obj (
    field (codes "tcbType") (num 0) (
      field (codes "pceId") (str (codes "0000")) (
        field (codes "fmspc") (str (codes "00906ea10000")) (
          field (codes "tcbLevels")
            (arr (items (level (replicate 16 1) 5 ∷ level (replicate 16 2) 9 ∷ []))) end))))

abbrev pub pool : List (Text × Text)
pool = (codes "low", pem "L") ∷ (codes "high", pem "H") ∷ []
