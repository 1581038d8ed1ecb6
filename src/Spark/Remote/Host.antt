-- ===== src/Spark/Remote/Host.antt =====
-- The host of a remote of the usual form.
use mathlib.Core.List.{append_assoc}
use livy_next.Prelude.{
  ℕ, ◌≡◌, refl, sym, ◌∙◌, ap, false, [], ◌∷◌, ◌++◌, Text, codes, is_empty, has_prefix, trim_prefix,
  trim_right, arith,
}
use livy_next.Net.{is_space, trim_space, trim_left_space, trim_right_space, has_byte, first_part}
use livy_next.Net.Parts.{
  has_byte-append, cut-here, trim_right-last, trim_right_space-keep, has_prefix-colon,
  split_host_port-plain,
}
use livy_next.Spark.Remote.{clean_remote, extract_host_from_remote, host_of}

-- A text without the bytes that part an address.
pub record Bare (s : Text) : Type 0 where
  pub no_colon : has_byte b':' s ≡ false
  pub no_semicolon : has_byte b';' s ≡ false
  pub no_slash : has_byte b'/' s ≡ false
  pub no_open : has_byte b'[' s ≡ false
  pub no_close : has_byte b']' s ≡ false

abbrev pub authority : Text → Text → Text
authority host port = host ++ b':' ∷ port

-- sc://host:port/;params
abbrev pub uri : Text → Text → Text → Text
uri host port params =
    codes "sc://" ++ (((host ++ b':' ∷ port) ++ codes "/") ++ (codes ";" ++ params))

trim_prefix-absent : (s p : Text) → has_prefix s p ≡ false → trim_prefix s p ≡ s
unfolding trim_prefix
trim_prefix-absent s p h = rw h refl

trim_uri :
    (s params : Text)
    → trim_space (codes "sc://" ++ (s ++ (codes ";" ++ params)))
      ≡ codes "sc://" ++ (s ++ b';' ∷ trim_right_space params)
unfolding trim_space trim_left_space is_space
trim_uri s params = trim_right_space-keep (codes "sc://" ++ s) b';' params refl

no_slashes :
    (port q : Text)
    → has_byte b'/' port ≡ false
    → has_prefix ((port ++ codes "/") ++ b';' ∷ q) (codes "//") ≡ false
unfolding has_prefix has_byte
no_slashes [] q e = refl
no_slashes (c ∷ port) q e = ground arith

module _ (host port q : Text) (h : Bare host) (p : Bare port) where
  regroup :
      (authority host port ++ codes "/") ++ b';' ∷ q
      ≡ host ++ b':' ∷ ((port ++ codes "/") ++ b';' ∷ q)
  regroup =
      append_assoc (authority host port) (codes "/") (b';' ∷ q)
      ∙ append_assoc host (b':' ∷ port) (codes "/" ++ b';' ∷ q)
      ∙ ap (λ r. host ++ b':' ∷ r) (sym (append_assoc port (codes "/") (b';' ∷ q)))

  no_scheme :
      (t : Text)
      → has_byte b':' t ≡ false
      → has_prefix ((authority host port ++ codes "/") ++ b';' ∷ q) (t ++ codes "://") ≡ false
  no_scheme t e = rw regroup (
      has_prefix-colon b':' host t ((port ++ codes "/") ++ b';' ∷ q) (codes "//") h.no_colon e
        (no_slashes port q p.no_slash))

  no_byte :
      (b : ℕ)
      → has_byte b host ≡ false
      → has_byte b port ≡ false
      → has_byte b (codes ":") ≡ false
      → has_byte b (authority host port) ≡ false
  no_byte b e f g = has_byte-append b host (b':' ∷ port) e (has_byte-append b (codes ":") port g f)

  part_lem :
      first_part b';' ((authority host port ++ codes "/") ++ b';' ∷ q)
      ≡ authority host port ++ codes "/"
  unfolding first_part
  part_lem =
      let a : has_byte b';' (authority host port ++ codes "/") ≡ false =
        has_byte-append b';' (authority host port) (codes "/")
          (no_byte b';' h.no_semicolon p.no_semicolon (unfold has_byte in refl))
          (unfold has_byte in refl) in
      rw (cut-here b';' (authority host port ++ codes "/") q a, first_part) refl

  trimmed_lem : trim_right b'/' (authority host port ++ codes "/") ≡ authority host port
  trimmed_lem =
      trim_right-last b'/' (authority host port)
        (no_byte b'/' h.no_slash p.no_slash (unfold has_byte in refl))

  -- Without the scheme.
  rest_lem :
      let y = (authority host port ++ codes "/") ++ b';' ∷ q in
      trim_right b'/' (
        first_part b';' (
          trim_prefix
            (trim_prefix (trim_prefix y (codes "spark://")) (codes "http://"))
            (codes "https://")))
      ≡ authority host port
  rest_lem =
      let y = (authority host port ++ codes "/") ++ b';' ∷ q in
      rw
        (
          trim_prefix-absent y (codes "spark://")
              (no_scheme (codes "spark") (unfold has_byte in refl)),
          trim_prefix-absent y (codes "http://")
              (no_scheme (codes "http") (unfold has_byte in refl)),
          trim_prefix-absent y (codes "https://")
              (no_scheme (codes "https") (unfold has_byte in refl)),
          part_lem,
        )
        trimmed_lem

pub clean_lem :
    (host port params : Text)
    → Bare host
    → Bare port
    → clean_remote (uri host port params) ≡ authority host port
unfolding clean_remote
clean_lem host port params h p =
    rw (trim_uri (authority host port ++ codes "/") params)
      (unfold trim_prefix has_prefix in rest_lem host port (trim_right_space params) h p)

-- ExtractHostFromRemote of sc://host:port/;params, whatever the parameters are, answers the host,
-- for a host that is not empty and a host and a port without colons, semicolons, slashes and
-- square brackets.
pub extract_host_lem :
    (host port params : Text)
    → Bare host
    → Bare port
    → is_empty host ≡ false
    → extract_host_from_remote (uri host port params) ≡ host
unfolding extract_host_from_remote
extract_host_lem host port params h p e = rw (clean_lem host port params h p) (
    rw
      (
        split_host_port-plain host port h.no_colon h.no_open h.no_close p.no_colon p.no_open
            p.no_close,
        host_of,
      )
      (rw e refl))
