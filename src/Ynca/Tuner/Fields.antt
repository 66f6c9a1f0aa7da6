-- ===== src/Ynca/Tuner/Fields.antt =====
-- What the fields of the decoded radio data are.
use yamaha_cli.Prelude.{List, [], some, ◌≡◌, refl, arith}
use yamaha_cli.Text.{Bytes, codes, equal_iff, to_upper, lookup}
use yamaha_cli.Ynca.Reports.{
  fold_reports-last, last_value, or_else, last_spelt, Records, lookup-fold_reports, reports_of,
  Writes,
}
use yamaha_cli.Ynca.Tuner.{tuner, RdsInfo, empty_rds, decode_rds_info, rds_step, rds_field}

program_service-Writes : Writes rds_step (λ x. x.program_service) some (codes "RDSPRGSERVICE")
unfolding rds_step rds_field
program_service-Writes l x = ground (arith, equal_iff (to_upper l.function) (codes "RDSPRGSERVICE"))

program_type-Writes : Writes rds_step (λ x. x.program_type) some (codes "RDSPRGTYPE")
unfolding rds_step rds_field
program_type-Writes l x = ground (
  arith,
  equal_iff (to_upper l.function) (codes "RDSPRGSERVICE"),
  equal_iff (to_upper l.function) (codes "RDSPRGTYPE"),
)

radio_text_a-Writes : Writes rds_step (λ x. x.radio_text_a) some (codes "RDSTXTA")
unfolding rds_step rds_field
radio_text_a-Writes l x = ground (
  arith,
  equal_iff (to_upper l.function) (codes "RDSPRGSERVICE"),
  equal_iff (to_upper l.function) (codes "RDSPRGTYPE"),
  equal_iff (to_upper l.function) (codes "RDSTXTA"),
)

radio_text_b-Writes : Writes rds_step (λ x. x.radio_text_b) some (codes "RDSTXTB")
unfolding rds_step rds_field
radio_text_b-Writes l x = ground (
  arith,
  equal_iff (to_upper l.function) (codes "RDSPRGSERVICE"),
  equal_iff (to_upper l.function) (codes "RDSPRGTYPE"),
  equal_iff (to_upper l.function) (codes "RDSTXTA"),
  equal_iff (to_upper l.function) (codes "RDSTXTB"),
)

raw-Records : Records rds_step (λ x. x.raw)
unfolding rds_step rds_field
raw-Records l x = ground arith

-- Whatever lines came, each field of the radio data is the last value of its function, in any case,
-- that the tuner reported, and empty if there is none. A function is looked up in the table of raw
-- values just if it was reported in that spelling, with its last value.
pub decode_rds_info-last_value :
    (function : Bytes) (lines : List Bytes)
    → (let x = decode_rds_info lines in
        let ls = reports_of tuner lines in
        (x.program_service ≡ or_else (last_value some (codes "RDSPRGSERVICE") ls) [])
        × (x.program_type ≡ or_else (last_value some (codes "RDSPRGTYPE") ls) [])
        × (x.radio_text_a ≡ or_else (last_value some (codes "RDSTXTA") ls) [])
        × (x.radio_text_b ≡ or_else (last_value some (codes "RDSTXTB") ls) [])
        × (lookup function x.raw ≡ last_spelt function ls))
unfolding decode_rds_info
decode_rds_info-last_value function lines = (
  last (λ x. x.program_service) (codes "RDSPRGSERVICE") program_service-Writes,
  last (λ x. x.program_type) (codes "RDSPRGTYPE") program_type-Writes,
  last (λ x. x.radio_text_a) (codes "RDSTXTA") radio_text_a-Writes,
  last (λ x. x.radio_text_b) (codes "RDSTXTB") radio_text_b-Writes,
  lookup-fold_reports rds_step (λ x. x.raw) raw-Records tuner function lines empty_rds refl,
)
  where
    last :
        (field : RdsInfo → Bytes) (key : Bytes)
        → Writes rds_step field some key
        → field (decode_rds_info lines)
          ≡ or_else (last_value some key (reports_of tuner lines)) (field empty_rds)
    last field key writes = fold_reports-last rds_step field some key writes tuner lines empty_rds
