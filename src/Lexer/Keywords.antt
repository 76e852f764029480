-- ===== src/Lexer/Keywords.antt =====
-- The keywords of `check_keyword` (src/lexer.c), in the order of its tests.
use inventixdb.Base.{List, [], ◌∷◌, Bytes, codes}
use inventixdb.Lexer.TokenType.{
  LexerTokenType, kw_add, kw_aggregate, kw_alter, kw_analyze, kw_and, kw_as, kw_asc, kw_auto,
  kw_avg, kw_backup, kw_banao, kw_begin, kw_between, kw_bool_type, kw_by, kw_cascade, kw_case,
  kw_checkpoint, kw_cluster, kw_collection, kw_column, kw_commit, kw_committed, kw_constraint,
  kw_count, kw_create, kw_cross, kw_database, kw_deallocate, kw_default, kw_delete, kw_desc,
  kw_dhundo, kw_distinct, kw_document, kw_drop, kw_else, kw_end, kw_execute, kw_exists, kw_exit,
  kw_explain, kw_export, kw_false, kw_find, kw_float, kw_foreign, kw_format, kw_from, kw_full,
  kw_girao, kw_group, kw_hatao, kw_having, kw_help, kw_import, kw_in, kw_index, kw_inner, kw_insert,
  kw_int, kw_into, kw_isolation, kw_jahan, kw_join, kw_karo, kw_key, kw_left, kw_level, kw_like,
  kw_limit, kw_lookup, kw_mangwao, kw_match, kw_max, kw_min, kw_modify, kw_natural, kw_nikalo,
  kw_nodes, kw_not, kw_null, kw_offset, kw_on, kw_or, kw_order, kw_outer, kw_partition, kw_password,
  kw_prepare, kw_primary, kw_project, kw_quit, kw_rakho, kw_read, kw_references, kw_release,
  kw_rename, kw_repeatable, kw_replicate, kw_restore, kw_restrict, kw_right, kw_rollback,
  kw_savepoint, kw_select, kw_serializable, kw_set, kw_show, kw_sort, kw_start, kw_status,
  kw_string_type, kw_sum, kw_sync, kw_table, kw_tables, kw_text_type, kw_then, kw_to,
  kw_transaction, kw_true, kw_uncommitted, kw_unique, kw_unwind, kw_update, kw_upsert, kw_use,
  kw_user, kw_using, kw_values, kw_when, kw_where, kw_write,
}

abbrev pub keywords_first : List (Bytes × LexerTokenType)
keywords_first =
    (codes "TABLE", kw_table)
    ∷ (codes "BANAO", kw_banao)
    ∷ (codes "INSERT", kw_insert)
    ∷ (codes "DAALO", kw_insert)
    ∷ (codes "DALO", kw_insert)
    ∷ (codes "KARO", kw_karo)
    ∷ (codes "SELECT", kw_select)
    ∷ (codes "CHUNO", kw_select)
    ∷ (codes "DIKHAO", kw_select)
    ∷ (codes "JAHAN", kw_jahan)
    ∷ (codes "RAKHO", kw_rakho)
    ∷ (codes "DHUNDO", kw_dhundo)
    ∷ (codes "DHUNDHO", kw_dhundo)
    ∷ (codes "NIKALO", kw_nikalo)
    ∷ (codes "MANGWAO", kw_mangwao)
    ∷ (codes "LAAO", kw_mangwao)
    ∷ (codes "HATAO", kw_hatao)
    ∷ (codes "CHECKPOINT", kw_checkpoint)
    ∷ (codes "FROM", kw_from)
    ∷ (codes "SE", kw_from)
    ∷ (codes "VALUES", kw_values)
    ∷ (codes "MAAN", kw_values)
    ∷ (codes "INT", kw_int)
    ∷ (codes "INTEGER", kw_int)
    ∷ (codes "FLOAT", kw_float)
    ∷ (codes "DOUBLE", kw_float)
    ∷ (codes "STRING", kw_string_type)
    ∷ (codes "VARCHAR", kw_string_type)
    ∷ (codes "CHAR", kw_string_type)
    ∷ (codes "TEXT", kw_text_type)
    ∷ (codes "BOOL", kw_bool_type)
    ∷ (codes "BOOLEAN", kw_bool_type)
    ∷ (codes "AUTO", kw_auto)
    ∷ (codes "PRIMARY", kw_primary)
    ∷ (codes "PK", kw_primary)
    ∷ (codes "KEY", kw_key)
    ∷ (codes "GIRAO", kw_girao)
    ∷ (codes "MITAO", kw_girao)
    ∷ (codes "INDEX", kw_index)
    ∷ (codes "ON", kw_on)
    ∷ (codes "CREATE", kw_create)
    ∷ (codes "USER", kw_user)
    ∷ (codes "PASSWORD", kw_password)
    ∷ (codes "DATABASE", kw_database)
    ∷ (codes "DATABASES", kw_database)
    ∷ (codes "SHOW", kw_show)
    ∷ (codes "DEKHO", kw_show)
    ∷ (codes "TABLES", kw_tables)
    ∷ (codes "TABLED", kw_tables)
    ∷ (codes "USE", kw_use)
    ∷ (codes "ISTEMAAL", kw_use)
    ∷ (codes "DELETE", kw_delete)
    ∷ (codes "DROP", kw_drop)
    ∷ (codes "WHERE", kw_jahan)
    ∷ (codes "UPDATE", kw_update)
    ∷ (codes "BADLO", kw_update)
    ∷ (codes "SET", kw_set)
    ∷ (codes "RAKHO_YEH", kw_set)
    ∷ (codes "AND", kw_and)
    ∷ (codes "AUR", kw_and)
    ∷ (codes "OR", kw_or)
    ∷ (codes "YA", kw_or)
    ∷ (codes "GROUP", kw_group)
    ∷ (codes "SAMOOH", kw_group)
    ∷ (codes "BY", kw_by)
    ∷ (codes "DWARA", kw_by)
    ∷ (codes "COUNT", kw_count)
    ∷ (codes "GINO", kw_count)
    ∷ (codes "SUM", kw_sum)
    ∷ (codes "JODO", kw_sum)
    ∷ (codes "AVG", kw_avg)
    ∷ (codes "AUSAAT", kw_avg)
    ∷ (codes "MAX", kw_max)
    ∷ (codes "SABSE_BADA", kw_max)
    ∷ (codes "MIN", kw_min)
    ∷ (codes "SABSE_CHOTA", kw_min)
    ∷ (codes "FROM", kw_from)
    ∷ (codes "BEGIN", kw_begin)
    ∷ (codes "SHURU", kw_begin)
    ∷ (codes "COMMIT", kw_commit)
    ∷ (codes "PUKKA", kw_commit)
    ∷ (codes "ROLLBACK", kw_rollback)
    ∷ (codes "WAPAS", kw_rollback)
    ∷ (codes "SAVEPOINT", kw_savepoint)
    ∷ (codes "NISHAAN", kw_savepoint)
    ∷ (codes "RELEASE", kw_release)
    ∷ (codes "TRANSACTION", kw_transaction)
    ∷ (codes "START", kw_start)
    ∷ (codes "TO", kw_to)
    ∷ (codes "INTO", kw_into)
    ∷ (codes "MEIN", kw_into)
    ∷ (codes "ISOLATION", kw_isolation)
    ∷ (codes "LEVEL", kw_level)
    ∷ (codes "READ", kw_read)
    ∷ (codes "PADHO", kw_read)
    ∷ (codes "WRITE", kw_write)
    ∷ (codes "LIKHO", kw_write)
    ∷ (codes "UNCOMMITTED", kw_uncommitted)
    ∷ (codes "COMMITTED", kw_committed)
    ∷ (codes "REPEATABLE", kw_repeatable)
    ∷ (codes "SERIALIZABLE", kw_serializable)
    ∷ (codes "PREPARE", kw_prepare)
    ∷ (codes "TAYYAR", kw_prepare)
    ∷ (codes "EXECUTE", kw_execute)
    ∷ (codes "CHALAO", kw_execute)
    ∷ (codes "DEALLOCATE", kw_deallocate)
    ∷ (codes "HATAO_TAYYAR", kw_deallocate)
    ∷ (codes "AS", kw_as)
    ∷ (codes "JAISE", kw_as)
    ∷ (codes "USING", kw_using)
    ∷ (codes "ISTEMAL", kw_using)
    ∷ (codes "JOIN", kw_join)
    ∷ (codes "MILAO", kw_join)
    ∷ (codes "INNER", kw_inner)
    ∷ (codes "LEFT", kw_left)
    ∷ (codes "BAAYA", kw_left)
    ∷ (codes "RIGHT", kw_right)
    ∷ (codes "DAAYA", kw_right)
    ∷ (codes "FULL", kw_full)
    ∷ (codes "POORA", kw_full)
    ∷ (codes "OUTER", kw_outer)
    ∷ (codes "BAHAR", kw_outer)
    ∷ (codes "CROSS", kw_cross)
    ∷ (codes "NATURAL", kw_natural)
    ∷ (codes "KUDRATI", kw_natural)
    ∷ (codes "EXPLAIN", kw_explain)
    ∷ (codes "SAMJHAO", kw_explain)
    ∷ (codes "ANALYZE", kw_analyze)
    ∷ (codes "ORDER", kw_order)
    ∷ (codes "KRAM", kw_order)
    ∷ (codes "ASC", kw_asc)
    ∷ (codes "CHADHTE", kw_asc)
    ∷ (codes "DESC", kw_desc)
    ∷ (codes "UTARTE", kw_desc)
    ∷ []

abbrev pub keywords_second : List (Bytes × LexerTokenType)
keywords_second =
    (codes "LIMIT", kw_limit)
    ∷ (codes "SEEMA", kw_limit)
    ∷ (codes "OFFSET", kw_offset)
    ∷ (codes "PAAR", kw_offset)
    ∷ (codes "WHERE", kw_where)
    ∷ (codes "ALTER", kw_alter)
    ∷ (codes "BADLO_TABLE", kw_alter)
    ∷ (codes "ADD", kw_add)
    ∷ (codes "JODO_COLUMN", kw_add)
    ∷ (codes "COLUMN", kw_column)
    ∷ (codes "STAMBH", kw_column)
    ∷ (codes "RENAME", kw_rename)
    ∷ (codes "NAAM_BADLO", kw_rename)
    ∷ (codes "MODIFY", kw_modify)
    ∷ (codes "SUDHAR", kw_modify)
    ∷ (codes "CONSTRAINT", kw_constraint)
    ∷ (codes "NIYAM", kw_constraint)
    ∷ (codes "FOREIGN", kw_foreign)
    ∷ (codes "VIDESHI", kw_foreign)
    ∷ (codes "REFERENCES", kw_references)
    ∷ (codes "SANDARBH", kw_references)
    ∷ (codes "CASCADE", kw_cascade)
    ∷ (codes "JHARNA", kw_cascade)
    ∷ (codes "RESTRICT", kw_restrict)
    ∷ (codes "ROKO", kw_restrict)
    ∷ (codes "NULL", kw_null)
    ∷ (codes "KHALI", kw_null)
    ∷ (codes "NOT", kw_not)
    ∷ (codes "NAHI", kw_not)
    ∷ (codes "DEFAULT", kw_default)
    ∷ (codes "MOOL", kw_default)
    ∷ (codes "UNIQUE", kw_unique)
    ∷ (codes "ANOKHA", kw_unique)
    ∷ (codes "BACKUP", kw_backup)
    ∷ (codes "SURAKSHA", kw_backup)
    ∷ (codes "RESTORE", kw_restore)
    ∷ (codes "WAPAS_LAO", kw_restore)
    ∷ (codes "EXPORT", kw_export)
    ∷ (codes "BHEJO", kw_export)
    ∷ (codes "IMPORT", kw_import)
    ∷ (codes "LAAO", kw_import)
    ∷ (codes "COLLECTION", kw_collection)
    ∷ (codes "SANGRAH", kw_collection)
    ∷ (codes "DOCUMENT", kw_document)
    ∷ (codes "DASTAVEZ", kw_document)
    ∷ (codes "FIND", kw_find)
    ∷ (codes "KHOJO", kw_find)
    ∷ (codes "UPSERT", kw_upsert)
    ∷ (codes "DAL_YA_BADLO", kw_upsert)
    ∷ (codes "AGGREGATE", kw_aggregate)
    ∷ (codes "IKATHA", kw_aggregate)
    ∷ (codes "MATCH", kw_match)
    ∷ (codes "MILA", kw_match)
    ∷ (codes "PROJECT", kw_project)
    ∷ (codes "PRADARSHI", kw_project)
    ∷ (codes "UNWIND", kw_unwind)
    ∷ (codes "KHOLO", kw_unwind)
    ∷ (codes "LOOKUP", kw_lookup)
    ∷ (codes "DEKHO_MILA", kw_lookup)
    ∷ (codes "SORT", kw_sort)
    ∷ (codes "KRAM_SE", kw_sort)
    ∷ (codes "FORMAT", kw_format)
    ∷ (codes "ROOP", kw_format)
    ∷ (codes "DROP", kw_drop)
    ∷ (codes "HAVING", kw_having)
    ∷ (codes "RAKHTE", kw_having)
    ∷ (codes "JISME", kw_having)
    ∷ (codes "DISTINCT", kw_distinct)
    ∷ (codes "ALAG", kw_distinct)
    ∷ (codes "MUKHTALIF", kw_distinct)
    ∷ (codes "LIKE", kw_like)
    ∷ (codes "JAISA", kw_like)
    ∷ (codes "IN", kw_in)
    ∷ (codes "ANDAR", kw_in)
    ∷ (codes "BETWEEN", kw_between)
    ∷ (codes "BEECH", kw_between)
    ∷ (codes "EXISTS", kw_exists)
    ∷ (codes "MAUJOOD", kw_exists)
    ∷ (codes "TRUE", kw_true)
    ∷ (codes "SACH", kw_true)
    ∷ (codes "HAAN", kw_true)
    ∷ (codes "FALSE", kw_false)
    ∷ (codes "JHOOTH", kw_false)
    ∷ (codes "NA", kw_false)
    ∷ (codes "CASE", kw_case)
    ∷ (codes "MAAMLA", kw_case)
    ∷ (codes "WHEN", kw_when)
    ∷ (codes "JAB", kw_when)
    ∷ (codes "THEN", kw_then)
    ∷ (codes "PHIR", kw_then)
    ∷ (codes "TAB", kw_then)
    ∷ (codes "ELSE", kw_else)
    ∷ (codes "WARNA", kw_else)
    ∷ (codes "END", kw_end)
    ∷ (codes "KHATAM", kw_end)
    ∷ (codes "CLUSTER", kw_cluster)
    ∷ (codes "JHAAD", kw_cluster)
    ∷ (codes "NODES", kw_nodes)
    ∷ (codes "GRANTHI", kw_nodes)
    ∷ (codes "REPLICATE", kw_replicate)
    ∷ (codes "NAKAL", kw_replicate)
    ∷ (codes "PARTITION", kw_partition)
    ∷ (codes "VIBHAJAN", kw_partition)
    ∷ (codes "SYNC", kw_sync)
    ∷ (codes "MILAO_SAATH", kw_sync)
    ∷ (codes "HELP", kw_help)
    ∷ (codes "MADAD", kw_help)
    ∷ (codes "QUIT", kw_quit)
    ∷ (codes "NIKLO", kw_quit)
    ∷ (codes "BAHAR", kw_quit)
    ∷ (codes "EXIT", kw_exit)
    ∷ (codes "KHATAM_KARO", kw_exit)
    ∷ (codes "STATUS", kw_status)
    ∷ (codes "HALAT", kw_status)
    ∷ (codes "STHITI", kw_status)
    ∷ []
