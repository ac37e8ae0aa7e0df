-- ===== src/Types/Defaults.antt =====
-- crates/ozint/src/types.rs: the payloads' `Default` and their derived equality with it, as
-- `OzPayload::empty_for` and signal.rs's `is_default` use them.
use ozint.Base.{ℕ, String, Bool, true, false, not, ◌&&◌, nat_eq, Option, none, some, List, [], ◌∷◌}
use ozint.Types.{OzType}
use ozint.Types.Payloads.{
  UsernamePayload, EmailPayload, PhonePayload, DomainPayload, DirectoryPayload, IpPayload,
  HashPayload, ImagePayload, VideoPayload, CoordinatePayload, CvePayload, OzPayload,
}

-- What the crate uses of `f64`. `ratio m n` is the literal or quotient m / n, `fixed d x` is the
-- format with `d` decimals, and the last two are `floor` and `round` followed by `as u64`.
pub record F64 (F : Type 0) : Type 0 where
  pub zero : F
  pub one : F
  pub ratio : ℕ → ℕ → F
  pub eq : F → F → Bool
  pub gt : F → F → Bool
  pub ge : F → F → Bool
  pub mul : F → F → F
  pub div : F → F → F
  pub rem : F → F → F
  pub fixed : ℕ → F → String
  pub floor_u64 : F → ℕ
  pub round_u64 : F → ℕ

abbrev pub is_nil {ℓ} : {A : Type ℓ} → List A → Bool
is_nil [] = true
is_nil (x ∷ xs) = false

abbrev pub is_none {ℓ} : {A : Type ℓ} → Option A → Bool
is_none none = true
is_none (some a) = false

unfoldable pub username_default : UsernamePayload
username_default = record { hits = []; sites_checked = 0; sites_confirmed = 0; profile = [] }

unfoldable pub username_is_default : UsernamePayload → Bool
username_is_default p =
    is_nil p.hits && nat_eq p.sites_checked 0 && nat_eq p.sites_confirmed 0 && is_nil p.profile

unfoldable pub email_default : EmailPayload
email_default = record {
  breaches = [];
  reputation = none;
  suspicious = none;
  domain_pattern = none;
  freemail = none;
}

unfoldable pub email_is_default : EmailPayload → Bool
email_is_default p =
    is_nil p.breaches
    && is_none p.reputation
    && is_none p.suspicious
    && is_none p.domain_pattern
    && is_none p.freemail

unfoldable pub phone_default : PhonePayload
phone_default = record {
  valid = none;
  country = none;
  carrier = none;
  line_type = none;
  fraud_score = none;
  subscriber_name = none;
  breaches = [];
}

unfoldable pub phone_is_default : PhonePayload → Bool
phone_is_default p =
    is_none p.valid
    && is_none p.country
    && is_none p.carrier
    && is_none p.line_type
    && is_none p.fraud_score
    && is_none p.subscriber_name
    && is_nil p.breaches

unfoldable pub domain_default : DomainPayload
domain_default = record {
  subdomains = [];
  subdomains_truncated = false;
  mx = [];
  ns = [];
  txt = [];
  registrar = none;
  created_at = none;
  email_pattern = none;
  vt_malicious = none;
  vt_reputation = none;
}

unfoldable pub domain_is_default : DomainPayload → Bool
domain_is_default p =
    is_nil p.subdomains
    && not p.subdomains_truncated
    && is_nil p.mx
    && is_nil p.ns
    && is_nil p.txt
    && is_none p.registrar
    && is_none p.created_at
    && is_none p.email_pattern
    && is_none p.vt_malicious
    && is_none p.vt_reputation

unfoldable pub directory_default : DirectoryPayload
directory_default = record { tiles = [] }

unfoldable pub directory_is_default : DirectoryPayload → Bool
directory_is_default p = is_nil p.tiles

module _ (F : Type 0) (floats : F64 F) where
  unfoldable pub ip_default : IpPayload F
  ip_default = record {
    country = none;
    city = none;
    lat = none;
    lon = none;
    asn = none;
    isp = none;
    abuse_score = none;
    classification = none;
    anonymizer = none;
    ports = [];
    vt_malicious = none;
    vt_reputation = none;
  }

  unfoldable pub ip_is_default : IpPayload F → Bool
  ip_is_default p =
      is_none p.country
      && is_none p.city
      && is_none p.lat
      && is_none p.lon
      && is_none p.asn
      && is_none p.isp
      && is_none p.abuse_score
      && is_none p.classification
      && is_none p.anonymizer
      && is_nil p.ports
      && is_none p.vt_malicious
      && is_none p.vt_reputation

  unfoldable pub hash_default : HashPayload F
  hash_default = record {
    md5 = none;
    sha1 = none;
    sha256 = none;
    detections = none;
    engines_total = none;
    family = none;
    first_seen = none;
    file_type = none;
    distribution_urls = [];
    pulse_count = none;
    sandbox_verdict = none;
    sandbox_reports = none;
    polyswarm_score = none;
  }

  unfoldable pub hash_is_default : HashPayload F → Bool
  hash_is_default p =
      is_none p.md5
      && is_none p.sha1
      && is_none p.sha256
      && is_none p.detections
      && is_none p.engines_total
      && is_none p.family
      && is_none p.first_seen
      && is_none p.file_type
      && is_nil p.distribution_urls
      && is_none p.pulse_count
      && is_none p.sandbox_verdict
      && is_none p.sandbox_reports
      && is_none p.polyswarm_score

  unfoldable pub image_default : ImagePayload F
  image_default = record {
    media_id = none;
    exif = [];
    lat = none;
    lon = none;
    accuracy_m = none;
    taken_at = none;
    camera = none;
    reverse_matches = [];
    phash = none;
  }

  unfoldable pub image_is_default : ImagePayload F → Bool
  image_is_default p =
      is_none p.media_id
      && is_nil p.exif
      && is_none p.lat
      && is_none p.lon
      && is_none p.accuracy_m
      && is_none p.taken_at
      && is_none p.camera
      && is_nil p.reverse_matches
      && is_none p.phash

  unfoldable pub video_default : VideoPayload F
  video_default = record {
    media_id = none;
    duration_s = none;
    codec = none;
    poster_media_id = none;
    keyframe_media_ids = [];
    source_url = none;
    platform = none;
    metadata = [];
  }

  unfoldable pub video_is_default : VideoPayload F → Bool
  video_is_default p =
      is_none p.media_id
      && is_none p.duration_s
      && is_none p.codec
      && is_none p.poster_media_id
      && is_nil p.keyframe_media_ids
      && is_none p.source_url
      && is_none p.platform
      && is_nil p.metadata

  unfoldable pub coordinate_default : CoordinatePayload F
  coordinate_default = record {
    lat = floats.zero;
    lon = floats.zero;
    accuracy_m = none;
    place = none;
    country = none;
    map_links = [];
  }

  unfoldable pub coordinate_is_default : CoordinatePayload F → Bool
  coordinate_is_default p =
      floats.eq p.lat floats.zero
      && floats.eq p.lon floats.zero
      && is_none p.accuracy_m
      && is_none p.place
      && is_none p.country
      && is_nil p.map_links

  unfoldable pub cve_default : CvePayload F
  cve_default = record {
    cvss = none;
    cvss_version = none;
    severity = none;
    epss = none;
    kev = false;
    published_at = none;
    summary = none;
    configurations = [];
    weaknesses = [];
    poc_urls = [];
  }

  unfoldable pub cve_is_default : CvePayload F → Bool
  cve_is_default p =
      is_none p.cvss
      && is_none p.cvss_version
      && is_none p.severity
      && is_none p.epss
      && not p.kev
      && is_none p.published_at
      && is_none p.summary
      && is_nil p.configurations
      && is_nil p.weaknesses
      && is_nil p.poc_urls

  -- `OzPayload::empty_for`.
  unfoldable pub empty_for : OzType → OzPayload F
  empty_for OzType.username = OzPayload.username username_default
  empty_for OzType.email = OzPayload.email email_default
  empty_for OzType.phone = OzPayload.phone phone_default
  empty_for OzType.ip = OzPayload.ip ip_default
  empty_for OzType.domain = OzPayload.domain domain_default
  empty_for OzType.hash = OzPayload.hash hash_default
  empty_for OzType.image = OzPayload.image image_default
  empty_for OzType.video = OzPayload.video video_default
  empty_for OzType.coordinate = OzPayload.coordinate coordinate_default
  empty_for OzType.cve = OzPayload.cve cve_default
  empty_for OzType.directory = OzPayload.directory directory_default
  empty_for OzType.name = OzPayload.name directory_default
