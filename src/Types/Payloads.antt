-- ===== src/Types/Payloads.antt =====
-- crates/ozint/src/types.rs: the payloads of the entity types. An instant is its number of
-- seconds; the type `F` of the 64-bit floats is a parameter.
use ozint.Base.{ℕ, String, Bool, Option, List}
use ozint.Types.{OzType, OzRow, SignalTone}

-- `i64`.
pub data ℤ : Type 0 where
  pos negsuc : ℕ → ℤ

pub data SiteHitStatus : Type 0 where
  confirmed possible absent error : SiteHitStatus

pub record SiteHit : Type 0 where
  pub site : String
  pub category : Option String
  pub url : String
  pub status : SiteHitStatus

pub record UsernamePayload : Type 0 where
  pub hits : List SiteHit
  pub sites_checked : ℕ
  pub sites_confirmed : ℕ
  pub profile : List OzRow

pub record BreachEvent : Type 0 where
  pub name : String
  pub breached_at : Option ℕ
  pub added_at : Option ℕ
  pub data_classes : List String
  pub tone : SignalTone
  pub source_tool_id : String

pub record EmailPayload : Type 0 where
  pub breaches : List BreachEvent
  pub reputation : Option String
  pub suspicious : Option Bool
  pub domain_pattern : Option String
  pub freemail : Option Bool

pub record PhonePayload : Type 0 where
  pub valid : Option Bool
  pub country : Option String
  pub carrier : Option String
  pub line_type : Option String
  pub fraud_score : Option ℕ
  pub subscriber_name : Option String
  pub breaches : List BreachEvent

pub record OpenPort : Type 0 where
  pub port : ℕ
  pub transport : Option String
  pub service : Option String
  pub product : Option String

pub record DomainPayload : Type 0 where
  pub subdomains : List String
  pub subdomains_truncated : Bool
  pub mx : List String
  pub ns : List String
  pub txt : List String
  pub registrar : Option String
  pub created_at : Option ℕ
  pub email_pattern : Option String
  pub vt_malicious : Option ℕ
  pub vt_reputation : Option ℤ

pub record CpeMatch : Type 0 where
  pub criteria : String
  pub version_start_including : Option String
  pub version_start_excluding : Option String
  pub version_end_including : Option String
  pub version_end_excluding : Option String

pub record PocRepo : Type 0 where
  pub html_url : String
  pub stargazers_count : Option ℤ
  pub updated_at : Option String

pub record DirectoryTile : Type 0 where
  pub tool_id : String
  pub label : String
  pub url : String
  pub reason : String
  pub live : Option Bool

pub record DirectoryPayload : Type 0 where
  pub tiles : List DirectoryTile

module _ (F : Type 0) where
  pub record IpPayload : Type 0 where
    pub country : Option String
    pub city : Option String
    pub lat : Option F
    pub lon : Option F
    pub asn : Option String
    pub isp : Option String
    pub abuse_score : Option ℕ
    pub classification : Option String
    pub anonymizer : Option Bool
    pub ports : List OpenPort
    pub vt_malicious : Option ℕ
    pub vt_reputation : Option ℤ

  pub record HashPayload : Type 0 where
    pub md5 : Option String
    pub sha1 : Option String
    pub sha256 : Option String
    pub detections : Option ℕ
    pub engines_total : Option ℕ
    pub family : Option String
    pub first_seen : Option ℕ
    pub file_type : Option String
    pub distribution_urls : List String
    pub pulse_count : Option ℕ
    pub sandbox_verdict : Option String
    pub sandbox_reports : Option ℕ
    pub polyswarm_score : Option F

  pub record ImagePayload : Type 0 where
    pub media_id : Option String
    pub exif : List OzRow
    pub lat : Option F
    pub lon : Option F
    pub accuracy_m : Option F
    pub taken_at : Option ℕ
    pub camera : Option String
    pub reverse_matches : List OzRow
    pub phash : Option String

  pub record VideoPayload : Type 0 where
    pub media_id : Option String
    pub duration_s : Option F
    pub codec : Option String
    pub poster_media_id : Option String
    pub keyframe_media_ids : List String
    pub source_url : Option String
    pub platform : Option String
    pub metadata : List OzRow

  pub record CoordinatePayload : Type 0 where
    pub lat : F
    pub lon : F
    pub accuracy_m : Option F
    pub place : Option String
    pub country : Option String
    pub map_links : List OzRow

  pub record CvePayload : Type 0 where
    pub cvss : Option F
    pub cvss_version : Option String
    pub severity : Option String
    pub epss : Option F
    pub kev : Bool
    pub published_at : Option ℕ
    pub summary : Option String
    pub configurations : List CpeMatch
    pub weaknesses : List String
    pub poc_urls : List PocRepo

  pub data OzPayload : Type 0 where
    username : UsernamePayload → OzPayload
    email : EmailPayload → OzPayload
    phone : PhonePayload → OzPayload
    ip : IpPayload → OzPayload
    domain : DomainPayload → OzPayload
    hash : HashPayload → OzPayload
    image : ImagePayload → OzPayload
    video : VideoPayload → OzPayload
    coordinate : CoordinatePayload → OzPayload
    cve : CvePayload → OzPayload
    directory : DirectoryPayload → OzPayload
    name : DirectoryPayload → OzPayload

  -- `OzPayload::oz_type`.
  unfoldable pub payload_type : OzPayload → OzType
  payload_type (OzPayload.username p) = OzType.username
  payload_type (OzPayload.email p) = OzType.email
  payload_type (OzPayload.phone p) = OzType.phone
  payload_type (OzPayload.ip p) = OzType.ip
  payload_type (OzPayload.domain p) = OzType.domain
  payload_type (OzPayload.hash p) = OzType.hash
  payload_type (OzPayload.image p) = OzType.image
  payload_type (OzPayload.video p) = OzType.video
  payload_type (OzPayload.coordinate p) = OzType.coordinate
  payload_type (OzPayload.cve p) = OzType.cve
  payload_type (OzPayload.directory p) = OzType.directory
  payload_type (OzPayload.name p) = OzType.name
