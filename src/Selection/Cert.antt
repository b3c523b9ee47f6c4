-- ===== src/Selection/Cert.antt =====
-- src/selection.rs: `parse_pck_cert`, the reader of a PCK certificate's SGX extension. The base64
-- decoder of the `base64` package is the parameter `decode`.
use pccs_rs.Common.{
  ℕ, ◌+◌, ◌%◌, ◌^◌, Bool, true, false, not, ◌&&◌, ◌||◌, List, [], ◌∷◌, ◌++◌, Option, none, some,
  ltb, ◌==◌, if◌then◌else◌, length, drop, is_empty, get_elem?,
}
use pccs_rs.Common.Result.{Result, ok, err, panic, ◌>>=◌, ◌>>◌, guard, ok_or}
use pccs_rs.Common.Text.{Text, codes, text_eq, encode_upper}
use pccs_rs.Selection.Error.{
  SelectionError, parsing_failed, sgx_extension_not_found, invalid_sgx_tcb_extension,
  invalid_sgx_extension,
}
use pccs_rs.Selection.Der.{Bytes, tlvs, find_extension, der_int}

-- DER of the OID 1.2.840.113741.1.13.1.
abbrev pub sgx_ext_oid : Bytes
sgx_ext_oid = 0x2A ∷ 0x86 ∷ 0x48 ∷ 0x86 ∷ 0xF8 ∷ 0x4D ∷ 0x01 ∷ 0x0D ∷ 0x01 ∷ []

abbrev pub sub_oid : ℕ → Bytes
sub_oid last = sgx_ext_oid ++ last ∷ []

pub record PckCertInfo : Type 0 where
  pub version : ℕ
  pub fmspc : Text
  pub pce_id : Text
  pub ppid : Text
  pub cpusvn : Text
  pub pcesvn : ℕ
  pub ca : Text

abbrev pub starts_with : Text → Text → Bool
starts_with [] s = true
starts_with (p ∷ ps) [] = false
starts_with (p ∷ ps) (c ∷ s) = c == p && starts_with ps s

-- `contains`. An ASCII pattern occurs in the lossy decoding of some bytes exactly where it occurs in
-- the bytes.
unfoldable pub contains : Text → Text → Bool
contains pattern [] = starts_with pattern []
contains pattern (c ∷ s) = starts_with pattern (c ∷ s) || contains pattern s

-- The parts before and behind the first occurrence of a separator.
unfoldable pub split_once : Text → Text → Option (Text × Text)
split_once sep [] = none
split_once sep (c ∷ s) =
    if starts_with sep (c ∷ s)
    then some ([], drop (length sep) (c ∷ s))
    else (elim (split_once sep s) [
      | none ↦ none
      | some (before, behind) ↦ some (c ∷ before, behind)
    ])

-- `split(sep).next()`.
abbrev pub first_piece : Text → Text → Text
first_piece sep s = elim (split_once sep s) [ none ↦ s | some (before, _) ↦ before ]

abbrev is_ascii_whitespace : ℕ → Bool
is_ascii_whitespace c = c == 32 || (c == 9 || (c == 10 || (c == 12 || c == 13)))

abbrev strip_whitespace : Text → Text
strip_whitespace [] = []
strip_whitespace (c ∷ s) =
    if is_ascii_whitespace c then strip_whitespace s else c ∷ strip_whitespace s

-- The first item with a tag, `into_iter().find(|(t, _)| *t == tag)`: its contents.
unfoldable pub find_tag : ℕ → List (ℕ × Bytes) → Option Bytes
find_tag tag [] = none
find_tag tag ((t, content) ∷ items) = if t == tag then some content else find_tag tag items

-- The certificate's version and the index of the issuer among the items of the TBS certificate.
-- `raw + 1` wraps at 32 bits.
unfoldable pub read_version : List (ℕ × Bytes) → Result SelectionError (ℕ × ℕ)
unfolding find_tag der_int tlvs
read_version [] = ok (1, 2)
read_version ((tag, v) ∷ kids) =
    if tag == 0xA0
    then (do
      items ← tlvs v
      b ← ok_or (find_tag 0x02 items) parsing_failed
      raw ← ok_or (der_int b) parsing_failed
      ok ((raw + 1) % 2 ^ 32, 3))
    else ok (1, 2)

unfoldable pub ca_type : Option (ℕ × Bytes) → Text
unfolding contains
ca_type none = []
ca_type (some (_, issuer)) =
    if contains (codes "Platform") issuer
    then codes "PLATFORM"
    else if contains (codes "Processor") issuer
    then codes "PROCESSOR"
    else []

-- The variables of the loop over the items of the SGX extension.
pub record SgxFields : Type 0 where
  pub fmspc : Text
  pub pce_id : Text
  pub ppid : Text
  pub cpusvn : Text
  pub pcesvn : Option ℕ

abbrev no_fields : SgxFields
no_fields = record { fmspc = []; pce_id = []; ppid = []; cpusvn = []; pcesvn = none }

-- `field(idx)`: the second part of the item at the index; out of range is a panic.
unfoldable pub tcb_field : List (ℕ × Bytes) → ℕ → Result SelectionError (Option (ℕ × Bytes))
unfolding tlvs
tcb_field items idx = elim (get_elem? items idx) [
  | none ↦ panic
  | some (_, content) ↦ do kids ← tlvs content; ok (get_elem? kids 1)
]

abbrev int_field : Option (ℕ × Bytes) → Option ℕ
int_field none = none
int_field (some (_, b)) = der_int b

abbrev hex_field : Option (ℕ × Bytes) → Text
hex_field none = []
hex_field (some (_, b)) = encode_upper b

-- The TCB item: 18 parts, PCESVN the 17th and the CPUSVN octets the last.
unfoldable pub read_tcb : SgxFields → Bytes → Result SelectionError SgxFields
unfolding tcb_field tlvs der_int
read_tcb f value = do
  items ← tlvs value
  guard (not (ltb (length items) 18)) invalid_sgx_tcb_extension
  svn ← tcb_field items 16
  cpu ← tcb_field items 17
  ok (record f { pcesvn = int_field svn; cpusvn = hex_field cpu })

-- What the loop does with an `{OID, value}` pair.
unfoldable pub read_pair : SgxFields → Bytes → Bytes → Result SelectionError SgxFields
unfolding read_tcb
read_pair f oid value =
    if text_eq oid (sub_oid 0x04)
    then ok (record f { fmspc = encode_upper value })
    else if text_eq oid (sub_oid 0x03)
    then ok (record f { pce_id = encode_upper value })
    else if text_eq oid (sub_oid 0x01)
    then ok (record f { ppid = encode_upper value })
    else if text_eq oid (sub_oid 0x02)
    then read_tcb f value
    else ok f

-- What the loop does with the parts of an item: no pair with an OID is skipped.
unfoldable pub read_kids : SgxFields → List (ℕ × Bytes) → Result SelectionError SgxFields
unfolding read_pair
read_kids f [] = ok f
read_kids f (x ∷ []) = ok f
read_kids f ((t, oid) ∷ (_, value) ∷ kids) = if not (t == 0x06) then ok f else read_pair f oid value

-- One round of the loop: an item that is no SEQUENCE is skipped.
unfoldable pub read_item : SgxFields → ℕ → Bytes → Result SelectionError SgxFields
unfolding read_kids tlvs
read_item f tag content =
    if not (tag == 0x30) then ok f else (do kids ← tlvs content; read_kids f kids)

unfoldable pub read_items : SgxFields → List (ℕ × Bytes) → Result SelectionError SgxFields
unfolding read_item
read_items f [] = ok f
read_items f ((tag, content) ∷ items) = do f' ← read_item f tag content; read_items f' items

-- One SEQUENCE is opened; any other list of items is taken as it stands.
unfoldable pub sgx_items : List (ℕ × Bytes) → Result SelectionError (List (ℕ × Bytes))
unfolding tlvs
sgx_items [] = ok []
sgx_items ((tag, inner) ∷ []) = if tag == 0x30 then tlvs inner else ok ((tag, inner) ∷ [])
sgx_items (x ∷ y ∷ items) = ok (x ∷ y ∷ items)

module _ (decode : Text → Option Bytes) where
  unfoldable pub pem_to_der : Text → Option Bytes
  unfolding split_once
  pem_to_der pem = elim (split_once (codes "-----BEGIN CERTIFICATE-----") pem) [
    | none ↦ none
    | some (_, behind) ↦ decode (
        strip_whitespace (
          first_piece (codes "-----END CERTIFICATE-----")
            (first_piece (codes "-----BEGIN CERTIFICATE-----") behind)))
  ]

  unfoldable pub parse_pck_cert : Text → Result SelectionError PckCertInfo
  unfolding pem_to_der tlvs find_tag read_version ca_type find_extension read_items sgx_items
  parse_pck_cert pem = do
    der ← ok_or (pem_to_der pem) parsing_failed
    outer ← tlvs der
    cert ← ok_or (find_tag 0x30 outer) parsing_failed
    parts ← tlvs cert
    tbs ← ok_or (find_tag 0x30 parts) parsing_failed
    tbs_kids ← tlvs tbs
    (version, issuer_index) ← read_version tbs_kids
    let ca = ca_type (get_elem? tbs_kids issuer_index)
    extension ← find_extension sgx_ext_oid der
    sgx ← ok_or extension sgx_extension_not_found
    outermost ← tlvs sgx
    items ← sgx_items outermost
    f ← read_items no_fields items
    pcesvn ← ok_or f.pcesvn invalid_sgx_tcb_extension
    if is_empty f.cpusvn || is_empty f.fmspc || is_empty f.pce_id
        then err invalid_sgx_extension
        else ok (record {
          version = version;
          fmspc = f.fmspc;
          pce_id = f.pce_id;
          ppid = f.ppid;
          cpusvn = f.cpusvn;
          pcesvn = pcesvn;
          ca = ca;
        })
