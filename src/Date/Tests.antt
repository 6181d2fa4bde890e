-- ===== src/Date/Tests.antt =====
-- The date at one time, of a leap year.
use deprecat_os.Prelude.{◌≡◌, some, arith}
use deprecat_os.Date.{Date, epoch_to_date}
use deprecat_os.Date.Laws.{IsDate, epoch_of, epoch_to_date_lem}

epoch_to_date_lem_example :
    (t : Date) × (epoch_to_date 951827696123 ≡ some t) × IsDate t × (epoch_of t ≡ 951827696123)
epoch_to_date_lem_example = epoch_to_date_lem 951827696123 (omega arith)
