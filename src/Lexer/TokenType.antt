-- ===== src/Lexer/TokenType.antt =====
-- The kinds of tokens (include/lexer.h), named as in the source without `TOKEN_`.
-- `LexerTokenType`
pub data LexerTokenType : Type 0 where
  eof identifier string int_literal float_literal kw_table kw_banao kw_insert : LexerTokenType
  kw_karo kw_select kw_jahan kw_rakho kw_dhundo kw_nikalo kw_from kw_values kw_int : LexerTokenType
  kw_float kw_string_type kw_text_type kw_bool_type kw_auto kw_primary kw_key : LexerTokenType
  kw_girao kw_mangwao kw_hatao kw_checkpoint kw_update kw_set kw_index kw_on : LexerTokenType
  kw_create kw_user kw_password kw_database kw_show kw_tables kw_use kw_and kw_or : LexerTokenType
  kw_group kw_by kw_count kw_sum kw_avg kw_min kw_max kw_begin kw_commit : LexerTokenType
  kw_rollback kw_savepoint kw_release kw_transaction kw_start kw_to kw_into : LexerTokenType
  kw_isolation kw_level kw_read kw_write kw_uncommitted kw_committed kw_repeatable : LexerTokenType
  kw_serializable kw_prepare kw_execute kw_deallocate kw_as kw_using kw_join : LexerTokenType
  kw_inner kw_left kw_right kw_full kw_outer kw_cross kw_natural kw_explain : LexerTokenType
  kw_analyze kw_order kw_asc kw_desc kw_limit kw_offset kw_where kw_alter kw_add : LexerTokenType
  kw_column kw_rename kw_modify kw_constraint kw_foreign kw_references kw_cascade : LexerTokenType
  kw_restrict kw_null kw_not kw_default kw_unique kw_backup kw_restore kw_export : LexerTokenType
  kw_import kw_collection kw_document kw_find kw_upsert kw_aggregate kw_match : LexerTokenType
  kw_project kw_unwind kw_lookup kw_sort kw_format kw_drop kw_delete kw_having : LexerTokenType
  kw_distinct kw_like kw_in kw_between kw_exists kw_true kw_false kw_case kw_when : LexerTokenType
  kw_then kw_else kw_end kw_cluster kw_nodes kw_replicate kw_partition kw_sync : LexerTokenType
  kw_help kw_quit kw_exit kw_status lparen rparen comma equals gt lt semicolon : LexerTokenType
  lbrace rbrace lbracket rbracket colon star : LexerTokenType
