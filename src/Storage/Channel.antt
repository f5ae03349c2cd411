-- ===== src/Storage/Channel.antt =====
-- internal/storage/profile_api.go: the channels, the heads of profiles, and their deletion.
pub mod Laws
use boot_optim_distribution.Base.{
  ltb_ℤ, int_eq, is_empty, contains, ◌>>=◌, ◌>>◌, Result, Bytes, bytes_eq, if◌then◌else◌, ◌==◌,
  nat_eq, bool_eq, pos, ok, err, ◌-◌, Bool, true, false, not, ◌&&◌, ◌||◌, Option, none, some, List,
  [], ◌∷◌,
}
use boot_optim_distribution.Revision.Ids.{is_sha256}
use boot_optim_distribution.Storage.Database.{
  StoreError, revision_not_found, channel_conflict, StoredRevision, ChannelRecord, Database,
  find_revision, has_profile,
}

-- `SELECT … FROM channels WHERE profile_id = ? AND channel = ?`
unfoldable pub find_channel : Bytes → Bytes → List ChannelRecord → Option ChannelRecord
find_channel profile channel [] = none
find_channel profile channel (c ∷ cs) =
    let rest = find_channel profile channel cs in
    if c.profile_id == profile && c.channel == channel then some c else rest

-- `INSERT INTO channels … ON CONFLICT(profile_id, channel) DO UPDATE SET …`
unfoldable pub put_channel : ChannelRecord → List ChannelRecord → List ChannelRecord
put_channel new [] = new ∷ []
put_channel new (c ∷ cs) =
    let rest = put_channel new cs in
    if c.profile_id == new.profile_id && c.channel == new.channel then new ∷ cs else c ∷ rest

-- The fields that `CompareAndSetChannel` compares are the same.
unfoldable pub same_record : ChannelRecord → ChannelRecord → Bool
same_record a b =
    a.profile_id == b.profile_id
    && a.channel == b.channel
    && a.revision_id == b.revision_id
    && a.sequence == b.sequence
    && a.manifest_sha256 == b.manifest_sha256

unfoldable pub as_expected : Option ChannelRecord → Option ChannelRecord → Bool
as_expected none none = true
as_expected none (some expected) = false
as_expected (some current) none = false
as_expected (some current) (some expected) = same_record current expected

-- The candidate has what every channel record has.
unfoldable pub complete_record : ChannelRecord → Bool
complete_record c = not (
    is_empty c.profile_id
    || is_empty c.channel
    || is_empty c.revision_id
    || ltb_ℤ c.sequence (pos 1)
    || not (is_sha256 c.manifest_sha256))

-- The candidate repeats what the revision's row says.
unfoldable pub points_at : ChannelRecord → StoredRevision → Bool
points_at c r =
    r.profile_id == c.profile_id
    && r.sequence == c.sequence
    && r.manifest_sha256 == c.manifest_sha256

-- `CompareAndSetChannel`
unfoldable pub compare_and_set_channel :
    Database → Option ChannelRecord → ChannelRecord → Result StoreError Database
compare_and_set_channel db expected candidate =
    if not (complete_record candidate)
    then err channel_conflict
    else if contains candidate.profile_id db.deleted
    then err channel_conflict
    else if not
        (as_expected (find_channel candidate.profile_id candidate.channel db.channels) expected)
    then err channel_conflict
    else elim (find_revision candidate.revision_id db.revisions) [
      | none ↦ err revision_not_found
      | some r ↦
          if points_at candidate r
          then ok (record db { channels = put_channel candidate db.channels })
          else err channel_conflict
    ]

-- `DeleteProfile`
unfoldable pub delete_profile : Database → Bytes → Result StoreError Database
delete_profile db id =
    if not (has_profile id db.revisions)
    then err revision_not_found
    else ok (record db { deleted = if contains id db.deleted then db.deleted else id ∷ db.deleted })

-- `Channel`
unfoldable pub channel_of : Database → Bytes → Bytes → Result StoreError ChannelRecord
channel_of db profile channel = elim (find_channel profile channel db.channels) [
  | none ↦ err revision_not_found
  | some c ↦ ok c
]

-- The first row of `ORDER BY sequence DESC` among those of a profile, no two of which have the same
-- sequence.
unfoldable pub newest : Bytes → List StoredRevision → Option StoredRevision
newest profile [] = none
newest profile (r ∷ rs) =
    let rest = newest profile rs in
    if r.profile_id == profile
    then elim rest [
      | none ↦ some r
      | some s ↦ if ltb_ℤ r.sequence s.sequence then some s else some r
    ]
    else rest

-- `ProfileHead`
unfoldable pub profile_head : Database → Bytes → Result StoreError StoredRevision
profile_head db profile =
    if contains profile db.deleted
    then err revision_not_found
    else elim (newest profile db.revisions) [ none ↦ err revision_not_found | some r ↦ ok r ]
