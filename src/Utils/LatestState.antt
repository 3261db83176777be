-- ===== src/Utils/LatestState.antt =====
-- GetLatestState and the statuses that TranslateBizInfosToContainerStatuses makes of it.
use module_controller.Prelude.{
  ◌≡◌, refl, ap, arith, List, [], ◌∷◌, ◌++◌, inl, inr, All, false, Bool-cases, map, ◌<>◌,
  if◌then◌else◌,
}
use module_controller.Prelude.Int.{ℤ, pos, ◌≤ℤ◌, ◌<ℤ◌, ltb_ℤ, eqb_ℤ}
use module_controller.Platform.Ark.{ArkBizStateRecord, ArkBizInfo}
use module_controller.Platform.Vnode.{BizStatusData}
use module_controller.Model.{ArkSimpleBizInfoData}
use module_controller.Utils.{
  Latest, latest_from, get_latest_state, get_biz_identity, status_data, translate_biz_info,
  translate_biz_infos_to_container_statuses, translate_simple_biz_data_to_biz_infos,
}

abbrev pub of_record : ArkBizStateRecord → Latest
of_record r = record { time = r.change_time; reason = r.reason; message = r.message }

abbrev pub no_record : Latest
no_record = record { time = pos 0; reason = ""; message = "" }

-- `l` is the start, if no record is newer, or else the first record that none after it is newer
-- than and that is newer than the start and than all before it.
pub data IsPicked (start : Latest) (l : Latest) (records : List ArkBizStateRecord) : Type 0 where
  kept : l ≡ start → All (λ q. q.change_time ≤ℤ start.time) records → IsPicked start l records
  chosen :
      (before : List ArkBizStateRecord) (r : ArkBizStateRecord) (after : List ArkBizStateRecord)
      → records ≡ before ++ r ∷ after
      → l ≡ of_record r
      → start.time <ℤ r.change_time
      → All (λ q. q.change_time <ℤ r.change_time) before
      → All (λ q. q.change_time ≤ℤ r.change_time) after
      → IsPicked start l records

IsPicked-older :
    (start l : Latest) (q : ArkBizStateRecord) (records : List ArkBizStateRecord)
    → q.change_time ≤ℤ start.time
    → IsPicked start l records
    → IsPicked start l (q ∷ records)
IsPicked-older start l q records h (kept e a) = kept e (h, a)
IsPicked-older start l q records h (chosen before r after e same n b a) =
    chosen (q ∷ before) r after (ap (λ t. q ∷ t) e) same n (omega arith, b) a

IsPicked-newer :
    (start l : Latest) (q : ArkBizStateRecord) (records : List ArkBizStateRecord)
    → start.time <ℤ q.change_time
    → IsPicked (of_record q) l records
    → IsPicked start l (q ∷ records)
IsPicked-newer start l q records h (kept e a) = chosen [] q records refl e h tt a
IsPicked-newer start l q records h (chosen before r after e same n b a) =
    chosen (q ∷ before) r after (ap (λ t. q ∷ t) e) same (omega arith) (n, b) a

latest_from-IsPicked :
    (start : Latest) (records : List ArkBizStateRecord)
    → IsPicked start (latest_from start records) records
unfolding latest_from
latest_from-IsPicked start [] = kept refl tt
latest_from-IsPicked start (q ∷ records) = elim (Bool-cases (ltb_ℤ start.time q.change_time)) [
  | inl newer_one ↦
      rw newer_one (
        IsPicked-newer start _ q records (ground arith)
          (latest_from-IsPicked (of_record q) records))
  | inr older ↦
      rw older
        (IsPicked-older start _ q records (ground arith) (latest_from-IsPicked start records))
]

-- GetLatestState returns time 0 and empty texts if no record has a time above 0, and otherwise the
-- first of the records with the greatest time.
pub get_latest_state-IsPicked :
    (records : List ArkBizStateRecord) → IsPicked no_record (get_latest_state records) records
unfolding get_latest_state
get_latest_state-IsPicked records = latest_from-IsPicked no_record records

-- The status of one biz, with the record that was picked.
abbrev pub status_of : ArkBizInfo → Latest → BizStatusData
status_of info l = record {
  key = get_biz_identity info.biz_name info.biz_version;
  name = info.biz_name;
  state = info.biz_state;
  change_time = l.time;
  reason = l.reason;
  message = l.message;
}

-- What a status shows: the picked record, or the time of the message and no texts.
pub data Reports (t : ℤ) (info : ArkBizInfo) (s : BizStatusData) : Type 0 where
  stale :
      All (λ q. q.change_time ≤ℤ pos 0) info.biz_state_records
      → s ≡ status_of info (record { time = t; reason = ""; message = "" })
      → Reports t info s
  fresh :
      (l : Latest)
      → IsPicked no_record l info.biz_state_records
      → pos 0 <ℤ l.time
      → s ≡ status_of info l
      → Reports t info s

status_data-Reports :
    (t : ℤ) (info : ArkBizInfo) (l : Latest)
    → IsPicked no_record l info.biz_state_records
    → Reports t info (status_data t info l)
unfolding status_data
status_data-Reports t info l (kept e a) = rw e (stale a refl)
status_data-Reports t info l (chosen before r after e same n b a) =
    let positive : pos 0 <ℤ l.time = rw same n in
    let nonzero : eqb_ℤ l.time (pos 0) ≡ false = ground arith in
    fresh l (chosen before r after e same n b a) positive (rw nonzero)

translate_biz_info-Reports :
    (t : ℤ) (info : ArkBizInfo) → Reports t info (translate_biz_info t info)
unfolding translate_biz_info
translate_biz_info-Reports t info =
    status_data-Reports t info _ (get_latest_state-IsPicked info.biz_state_records)

-- One status for each biz, in order.
pub data Reported (t : ℤ) : List ArkBizInfo → List BizStatusData → Type 0 where
  none_left : Reported t [] []
  one_more :
      {info : ArkBizInfo} {s : BizStatusData} {infos : List ArkBizInfo} {l : List BizStatusData}
      → Reports t info s
      → Reported t infos l
      → Reported t (info ∷ infos) (s ∷ l)

-- There is one status for each biz, in order, with its identity, name and state. Its time, reason
-- and message are those of the first of the biz's newest records, if one has a time above 0, and
-- else the message's time and empty texts.
pub statuses-Reported :
    (t : ℤ) (infos : List ArkBizInfo)
    → Reported t infos (translate_biz_infos_to_container_statuses infos t)
unfolding translate_biz_infos_to_container_statuses
statuses-Reported t [] = none_left
statuses-Reported t (info ∷ infos) =
    one_more (translate_biz_info-Reports t info) (statuses-Reported t infos)

-- The status that a simple report of a biz leads to.
abbrev pub simple_status : ℤ → ArkSimpleBizInfoData → BizStatusData
simple_status t d =
    let seen = ltb_ℤ (pos 0) d.latest_state_record.change_time in
    record {
      key = d.name <> ":" <> d.version;
      name = d.name;
      state = d.state;
      change_time = if seen then d.latest_state_record.change_time else t;
      reason = if seen then d.latest_state_record.reason else "";
      message = if seen then d.latest_state_record.message else "";
    }

one_simple_status :
    (t : ℤ) (d : ArkSimpleBizInfoData)
    → translate_biz_info t (record {
      biz_name = d.name;
      biz_version = d.version;
      biz_state = d.state;
      biz_state_records = d.latest_state_record ∷ [];
    })
      ≡ simple_status t d
unfolding translate_biz_info get_latest_state
one_simple_status t d = elim (Bool-cases (ltb_ℤ (pos 0) d.latest_state_record.change_time)) [
  | inl seen ↦
      let nonzero : eqb_ℤ d.latest_state_record.change_time (pos 0) ≡ false = ground arith in
      rw seen (rw nonzero)
  | inr unseen ↦ rw unseen
]

-- A simple report drops no biz: each leads to one status, in order, with the time, reason and
-- message of its one record if that has a time above 0, and else the message's time.
pub simple_statuses :
    (t : ℤ) (reports : List ArkSimpleBizInfoData)
    → translate_biz_infos_to_container_statuses (translate_simple_biz_data_to_biz_infos reports) t
      ≡ map (simple_status t) reports
unfolding translate_biz_infos_to_container_statuses translate_simple_biz_data_to_biz_infos
simple_statuses t [] = refl
simple_statuses t (d ∷ reports) =
    rw (simple_statuses t reports)
      (ap (λ s. s ∷ map (simple_status t) reports) (one_simple_status t d))
