-- ===== src/Cron/Tests.antt =====
-- A schedule on working days, and some that do not parse.
use Prim.Native.Char.{code}
use agent_keep.Base.{String, [], ◌∷◌, ◌≡◌, refl, ok, err, true}
use agent_keep.Egress.Text.{Text}
use agent_keep.Cron.Parse.{out_of_range, field_count, step_without_range, parse_cron}
use agent_keep.Cron.Admits.{OnOk}
use agent_keep.Cron.Schedule.{IsRanged, parse_cron-IsRanged}

unfoldable codes : String → Text
codes String.[] = []
codes (String.◌∷◌ c s) = code c ∷ codes s

working_days :
    parse_cron (codes "*/15 9-11 1,15 * 1-5,7")
    ≡ ok (record {
      minutes = 0 ∷ 15 ∷ 30 ∷ 45 ∷ [];
      hours = 9 ∷ 10 ∷ 11 ∷ [];
      days_of_month = 1 ∷ 15 ∷ [];
      months = 1 ∷ 2 ∷ 3 ∷ 4 ∷ 5 ∷ 6 ∷ 7 ∷ 8 ∷ 9 ∷ 10 ∷ 11 ∷ 12 ∷ [];
      days_of_week = 1 ∷ 2 ∷ 3 ∷ 4 ∷ 5 ∷ 0 ∷ [];
      dom_restricted = true;
      dow_restricted = true;
    })
unfolding parse_cron codes
working_days = refl

nickname : parse_cron (codes " @daily") ≡ err (field_count 1 true)
unfolding parse_cron codes
nickname = refl

late_hour : parse_cron (codes "0 24 * * *") ≡ err (out_of_range "hour" 24)
unfolding parse_cron codes
late_hour = refl

lone_step : parse_cron (codes "5/2 * * * *") ≡ err (step_without_range "minute" (codes "5/2"))
unfolding parse_cron codes
lone_step = refl

parse_cron-IsRanged_example : OnOk IsRanged (parse_cron (codes "*/15 9-11 1,15 * 1-5,7"))
parse_cron-IsRanged_example = parse_cron-IsRanged (codes "*/15 9-11 1,15 * 1-5,7")
