-- ===== src/Postgres/Query.antt =====
-- sources/postgres.py: the query of the target's catalog, as its text.
use cs_backup_helper.Base.{◌++◌}
use cs_backup_helper.Base.Text.{Text, codes}

abbrev pub catalog_setup : Text
catalog_setup = codes "SET search_path = ''"

unfoldable pub live_objects_sql : Text
live_objects_sql =
    codes "SELECT c.relkind::text, n.nspname::text, c.relname::text, '', "
    ++ (codes "format('%I.%I', n.nspname, c.relname), '' "
        ++ (codes "FROM pg_catalog.pg_class c "
            ++ (codes "JOIN pg_catalog.pg_namespace n ON n.oid = c.relnamespace "
                ++ (codes
                      "WHERE c.relkind IN ('r', 'p', 'v', 'm', 'f', 'S') AND NOT c.relispartition "
                    ++ (codes "AND n.nspname !~ '^pg_' AND n.nspname <> 'information_schema' "
                        ++ (codes "AND pg_catalog.pg_has_role(c.relowner, 'USAGE') "
                            ++ (codes "AND NOT EXISTS (SELECT FROM pg_catalog.pg_depend d "
                                ++ (codes
                                      "WHERE d.classid = 'pg_catalog.pg_class'::regclass AND d.objid = c.oid "
                                    ++ (codes
                                          "AND (d.deptype = 'e' OR (c.relkind = 'S' AND d.deptype IN ('a', 'i') "
                                        ++ (codes
                                              "AND d.refclassid = 'pg_catalog.pg_class'::regclass))) "
                                            ++ (codes "UNION ALL "
                                                ++ (codes
                                                      "SELECT 'F', n.nspname, c.relname, con.conname, format('%I.%I', n.nspname, c.relname), "
                                                    ++ (codes "rn.nspname "
                                                        ++ (codes
                                                            "FROM pg_catalog.pg_constraint con "
                                                            ++ (codes
                                                            "JOIN pg_catalog.pg_class c ON c.oid = con.conrelid "
                                                            ++ (codes
                                                            "JOIN pg_catalog.pg_namespace n ON n.oid = c.relnamespace "
                                                            ++ (codes
                                                            "JOIN pg_catalog.pg_class r ON r.oid = con.confrelid "
                                                            ++ (codes
                                                            "JOIN pg_catalog.pg_namespace rn ON rn.oid = r.relnamespace "
                                                            ++ (codes
                                                            "WHERE con.contype = 'f' AND con.conparentid = 0 "
                                                            ++ (codes
                                                            "AND n.nspname !~ '^pg_' AND n.nspname <> 'information_schema' "
                                                            ++ (codes
                                                            "AND NOT EXISTS (SELECT FROM pg_catalog.pg_depend d "
                                                            ++ (codes
                                                            "WHERE d.classid = 'pg_catalog.pg_class'::regclass AND d.objid = c.oid AND d.deptype = 'e') "
                                                            ++ (codes "UNION ALL "
                                                            ++ (codes
                                                            "SELECT CASE t.typtype WHEN 'd' THEN 'D' ELSE 'T' END, n.nspname, t.typname, '', "
                                                            ++ (codes
                                                            "format('%I.%I', n.nspname, t.typname), '' "
                                                            ++ (codes "FROM pg_catalog.pg_type t "
                                                            ++ (codes
                                                            "JOIN pg_catalog.pg_namespace n ON n.oid = t.typnamespace "
                                                            ++ (codes
                                                            "LEFT JOIN pg_catalog.pg_class c ON c.oid = t.typrelid "
                                                            ++ (codes
                                                            "WHERE (t.typtype IN ('e', 'r', 'd') OR (t.typtype = 'c' AND c.relkind = 'c')) "
                                                            ++ (codes
                                                            "AND n.nspname !~ '^pg_' AND n.nspname <> 'information_schema' "
                                                            ++ (codes
                                                            "AND pg_catalog.pg_has_role(t.typowner, 'USAGE') "
                                                            ++ (codes
                                                            "AND NOT EXISTS (SELECT FROM pg_catalog.pg_depend d "
                                                            ++ (codes
                                                            "WHERE d.classid = 'pg_catalog.pg_type'::regclass AND d.objid = t.oid AND d.deptype = 'e') "
                                                            ++ (codes "UNION ALL "
                                                            ++ (codes
                                                            "SELECT CASE p.prokind WHEN 'a' THEN 'AG' WHEN 'p' THEN 'PR' ELSE 'FN' END, n.nspname, "
                                                            ++ (codes
                                                            "p.proname || '(' || CASE WHEN p.prokind = 'a' AND p.pronargs = 0 THEN '*' "
                                                            ++ (codes
                                                            "ELSE coalesce((SELECT string_agg(pg_catalog.format_type(a.t, NULL), ', ' ORDER BY a.o) "
                                                            ++ (codes
                                                            "FROM unnest(p.proargtypes) WITH ORDINALITY AS a(t, o)), '') END || ')', '', "
                                                            ++ (codes
                                                            "CASE WHEN p.prokind IN ('f', 'w') THEN p.oid::pg_catalog.regprocedure::text "
                                                            ++ (codes
                                                            "ELSE format('%I.%I(%s)', n.nspname, p.proname, CASE WHEN p.prokind = 'a' AND p.pronargs = 0 "
                                                            ++ (codes
                                                            "THEN '*' ELSE pg_catalog.pg_get_function_identity_arguments(p.oid) END) END, '' "
                                                            ++ (codes "FROM pg_catalog.pg_proc p "
                                                            ++ (codes
                                                            "JOIN pg_catalog.pg_namespace n ON n.oid = p.pronamespace "
                                                            ++ (codes
                                                            "WHERE n.nspname !~ '^pg_' AND n.nspname <> 'information_schema' "
                                                            ++ (codes
                                                            "AND pg_catalog.pg_has_role(p.proowner, 'USAGE') "
                                                            ++ (codes
                                                            "AND NOT EXISTS (SELECT FROM pg_catalog.pg_depend d "
                                                            ++ (codes
                                                            "WHERE d.classid = 'pg_catalog.pg_proc'::regclass AND d.objid = p.oid "
                                                            ++ (codes
                                                            "AND d.deptype IN ('e', 'i')) "
                                                            ++ (codes "UNION ALL "
                                                            ++ (codes
                                                            "SELECT 'R', '', rolname, '', '', '' FROM pg_catalog.pg_roles "
                                                            ++ (codes "UNION ALL "
                                                            ++ (codes
                                                            "SELECT 'V', '', pg_catalog.current_setting('server_version_num'), '', '', '' "
                                                            ++ (codes "ORDER BY 1, 2, 3, 4")))))))))
                                                            ))))))))))))))))))))))))))))))))))))))))
                                                            ))))
