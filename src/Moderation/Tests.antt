-- ===== src/Moderation/Tests.antt =====
-- A flag that is reviewed twice.
use my_fans.Common.{◌≡◌, refl, none, some, [], ◌∷◌}
use my_fans.Common.Actions.{ok}
use my_fans.Database.{Table}
use my_fans.Database.ListTable.{list_table}
use my_fans.Moderation.{
  under_review, rejected, pending, post, spam, ModerationFlag, ModerationAuditLog, CreateFlagDto,
  ReviewFlagDto, flag_key, no_clash, log_key, no_log_clash, new_flag, reviewed, new_log,
  create_flag, find_flag, review_flag, get_audit_log,
}
use my_fans.Moderation.Trail.{IsTrail}
use my_fans.Moderation.Reviews.{Reach, here, then', flagged, reviews, desk-IsTrail}

abbrev flags : Table flag_key no_clash
flags = list_table flag_key no_clash

abbrev audit : Table log_key no_log_clash
audit = list_table log_key no_log_clash

abbrev report : CreateFlagDto
report = record { content_type = post; content_id = 4; reason = spam; notes = none }

abbrev look : ReviewFlagDto
look = record { status = under_review; admin_notes = none }

abbrev refuse : ReviewFlagDto
refuse = record { status = rejected; admin_notes = some 2 }

abbrev open' : ModerationFlag
open' = new_flag 7 report 100 0

abbrev looked : ModerationFlag
looked = reviewed 1 look 200 open'

abbrev refused : ModerationFlag
refused = reviewed 2 refuse 300 looked

abbrev log_one : ModerationAuditLog
log_one = new_log 0 1 pending look 0

abbrev log_two : ModerationAuditLog
log_two = new_log 0 2 under_review refuse 1

reports : create_flag flags audit 7 report 100 ([], []) ≡ (ok open', (open' ∷ [], []))
unfolding create_flag
reports = refl

looks :
    review_flag flags audit 1 0 look 200 (open' ∷ [], []) ≡ (ok looked, (looked ∷ [], log_one ∷ []))
unfolding review_flag find_flag
looks = refl

refuses :
    review_flag flags audit 2 0 refuse 300 (looked ∷ [], log_one ∷ [])
    ≡ (ok refused, (refused ∷ [], log_two ∷ log_one ∷ []))
unfolding review_flag find_flag
refuses = refl

listed :
    get_audit_log flags audit 0 (refused ∷ [], log_two ∷ log_one ∷ []) ≡ ok (log_two ∷ log_one ∷ [])
unfolding get_audit_log find_flag
listed = refl

happened : Reach flags audit ([], []) (refused ∷ [], log_two ∷ log_one ∷ [])
happened =
    then' ([], []) (looked ∷ [], log_one ∷ []) (refused ∷ [], log_two ∷ log_one ∷ [])
      (then' ([], []) (open' ∷ [], []) (looked ∷ [], log_one ∷ [])
        (then' ([], []) ([], []) (open' ∷ [], []) (here ([], []))
          (flagged 7 report 100 [] (open' ∷ []) [] [] open' reports))
        (reviews 1 0 look 200 (open' ∷ []) (looked ∷ []) [] (log_one ∷ []) looked refl looks))
      (reviews 2 0 refuse 300 (looked ∷ []) (refused ∷ []) (log_one ∷ []) (log_two ∷ log_one ∷ [])
        refused refl refuses)

desk-IsTrail_example : IsTrail flags audit (refused ∷ []) (log_two ∷ log_one ∷ [])
desk-IsTrail_example =
    desk-IsTrail flags audit [] (refused ∷ []) [] (log_two ∷ log_one ∷ []) refl refl happened
