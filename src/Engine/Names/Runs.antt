-- ===== src/Engine/Names/Runs.antt =====
-- The names of a table of level 3 and of a log.
use flume.Common.{◌≡◌, some, arith}
use flume.Engine.Names.{sst_file_name, wal_file_name, parse_sst_filename, parse_wal_filename}
use flume.Engine.Names.RoundTrip.{parse_sst_filename-sst_file_name}

parse_sst_filename-sst_file_name_example :
    (parse_sst_filename (sst_file_name 3 12) ≡ some (3, 12))
    × (parse_wal_filename (wal_file_name 12) ≡ some 12)
parse_sst_filename-sst_file_name_example =
    parse_sst_filename-sst_file_name 3 12 (omega arith) (omega arith)
